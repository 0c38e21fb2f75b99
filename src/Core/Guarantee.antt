-- ===== src/Core/Guarantee.antt =====
-- cmd/core/main.go: what a commit of the whole process guarantees.
use nine_core.Common.{
  ℕ, List, Option, none, some, Bytes, ◌≡◌, refl, sym, ap, ◌∙◌, ◌⊎◌, inl, inr, Occurs, All,
  Option-cases, subst,
}
use nine_core.Errors.{GoError, Result, ok, err, Result-cases}
use nine_core.Kafka.{Record}
use nine_core.Pipeline.{Outcome, done, retry, poison}
use nine_core.Event.{AgentRun, decode}
use nine_core.Store.Insert.{insert, handle, handle-done}
use nine_core.Retry.Marks.{Marks}
use nine_core.Retry.Forwarder.{route, outgoing, forward}
use nine_core.Consumer.Setup.{Config, decoded, Machine, committed, with_defaults, new}
use nine_core.Consumer.Promise.{Promise, IsKept}
use nine_core.Consumer.Promise.Loop.{run-IsKept}
use nine_core.Store.Insert.Columns.{arguments}
use nine_core.Core.Durable.{Keeps, Durable}
use nine_core.Core.{
  Process, Platform, naming, broker, as_decoded, wired, Ends, idle, attempt, made, ran, core,
}

module _ (p : Platform) (d : Durable p) where
  -- The event of a record has been in the table, or the record that the forwarder makes of it for
  -- a Retry or a Poison has been appended to the topic that the route names.
  abbrev pub IsSettled : p.State → Record → Type 0
  IsSettled s r =
      ((e : AgentRun) × (decode p.parsers r.key r.value ≡ ok e) × d.facts.Recorded s (arguments e))
      ⊎ ((o : Outcome) × (cause : Option GoError) × (at : ℕ) × (dest : Bytes) × (m : Marks) × ((o
              ≡ retry)
            ⊎ (o ≡ poison))
          × (route (naming p) r o cause at ≡ ok (dest, m))
          × d.facts.Sent s (outgoing (naming p) r dest m))

  Keeps-IsSettled :
      (s s' : p.State) → Keeps d.facts s s' → (r : Record) → IsSettled s r → IsSettled s' r
  Keeps-IsSettled s s' k r (inl (e, q, h)) = inl (e, q, k.0 (arguments e) h)
  Keeps-IsSettled s s' k r (inr (o, c, at, dest, m, w, q, h)) =
      inr (o, c, at, dest, m, w, q, k.1 _ h)

  Keeps-trans : (a b c : p.State) → Keeps d.facts a b → Keeps d.facts b c → Keeps d.facts a c
  Keeps-trans a b c f g = (λ e h. g.0 e (f.0 e h), λ r h. g.1 r (f.1 r h))

  pub ok_inj : {A : Type 0} {x y : A} → ok x ≡ ok y → x ≡ y
  ok_inj q = cc

  some_inj : {A : Type 0} {x y : A} → some x ≡ some y → x ≡ y
  some_inj q = cc

  as_decoded-decoded : (r : Result AgentRun) (e : AgentRun) → as_decoded p r ≡ decoded e → r ≡ ok e
  as_decoded-decoded (ok x) e h = cc
  as_decoded-decoded (err x) e h = cc

  handle-Keeps :
      (e : AgentRun) (s : p.State) → Keeps d.facts s (handle p.safe_to_retry p.query_row e s).1
  unfolding handle insert
  handle-Keeps e s = d.query_row_keeps (arguments e) s

  handle-Recorded :
      (e : AgentRun) (s : p.State)
      → (handle p.safe_to_retry p.query_row e s).0.0 ≡ done
      → d.facts.Recorded (handle p.safe_to_retry p.query_row e s).1 (arguments e)
  unfolding handle insert
  handle-Recorded e s h =
      elim (handle-done p.safe_to_retry p.query_row e s (d.foreign (arguments e) s) h) [
        | inl (id, q) ↦ d.returned (arguments e) s id q
        | inr (x, q, inl n) ↦ d.conflicting (arguments e) s x q n
        | inr (x, q, inr (g, f, c)) ↦ d.violated (arguments e) s x g q f c
      ]

  forward-Keeps :
      (r : Record) (o : Outcome) (cause : Option GoError) (s : p.State)
      → Keeps d.facts s (forward (naming p) (broker p) r o cause s).1
  unfolding forward
  forward-Keeps r o cause s =
      let at = (p.now s).0 in
      elim (Result-cases (route (naming p) r o cause at)) [
        | inl ((dest, m), q) ↦
            rw (q, forward)
              (Keeps-trans _ _ _ (d.now_keeps s)
                (d.produce_keeps (outgoing (naming p) r dest m) (p.now s).1))
        | inr (e, q) ↦ rw (q, forward) (d.now_keeps s)
      ]

  forward-IsSettled :
      (r : Record) (o : Outcome) (cause : Option GoError) (s : p.State)
      → (o ≡ retry) ⊎ (o ≡ poison)
      → (forward (naming p) (broker p) r o cause s).0 ≡ none
      → IsSettled (forward (naming p) (broker p) r o cause s).1 r
  unfolding forward
  forward-IsSettled r o cause s which h =
      let at = (p.now s).0 in
      elim (Result-cases (route (naming p) r o cause at)) [
        | inl ((dest, m), q) ↦
            let out = outgoing (naming p) r dest m in
            elim (Option-cases (p.produce out (p.now s).1).0) [
              | inl a ↦
                  rw (q, forward)
                    (inr (o, cause, at, dest, m, which, q, d.acknowledged out (p.now s).1 a))
              | inr (x, a) ↦ cc (rw (q, forward, a) at h)
            ]
        | inr (e, q) ↦ cc (rw (q, forward) at h)
      ]

  -- The wired consumer keeps its promise of a settled record.
  settling : Promise (wired p)
  settling = record {
    Holds = IsSettled;
    by_handler = λ r e s q h. inl (e, as_decoded-decoded _ e q, handle-Recorded e s h);
    by_sink = λ send q r o e s which h.
        subst (λ f. (f r o e s).0 ≡ none → IsSettled (f r o e s).1 r) (some_inj q)
          (forward-IsSettled r o e s which) h;
    handle_keeps = λ e s. Keeps-IsSettled _ _ (handle-Keeps e s);
    sink_keeps = λ send q x o e s.
        subst (λ f. (r : Record) → IsSettled s r → IsSettled (f x o e s).1 r) (some_inj q)
          (Keeps-IsSettled _ _ (forward-Keeps x o e s));
    hook_keeps = λ hook q. cc;
    now_keeps = λ s. Keeps-IsSettled _ _ (d.now_keeps s);
    cancelled_keeps = λ s. Keeps-IsSettled _ _ (d.cancelled_keeps s);
    poll_keeps = λ n t s. Keeps-IsSettled _ _ (d.poll_keeps n t s);
    commit_keeps = λ rs s. Keeps-IsSettled _ _ (d.commit_keeps rs s);
  }

  -- What holds of a start that failed and of what follows one that did not.
  pub attempt-cases :
      (P : Ends p → Type 0) {A : Type 0} (r : Result A × p.State) (k : A → p.State → Ends p)
      → ((x : Option (Option GoError)) (s : p.State) → P (x, idle p s))
      → ((a : A) → r.0 ≡ ok a → P (k a r.1))
      → P (attempt p r k)
  unfolding attempt
  attempt-cases P (ok a, s) k failed went_on = went_on a refl
  attempt-cases P (err e, s) k failed went_on = failed (some (some e)) s

  abbrev Settles : Ends p → Type 0
  Settles o =
      (rs : List Record) (e : Option GoError)
      → Occurs (committed rs e) o.1.trace
      → All (IsSettled o.1.world) rs

  new-idle : (cfg : Config) (s : p.State) → (new cfg s).2 ≡ idle p s
  unfolding new
  new-idle cfg s = refl

  -- A consumer that joined its group has committed nothing yet.
  pub made-idle :
      (cfg : Config) (s : p.State) (c : Config × Machine p.State)
      → (made p cfg s).0 ≡ ok c
      → c.1 ≡ idle p (made p cfg s).1
  made-idle cfg s c h = elim (Option-cases (new cfg s).0) [
    | inl a ↦ elim (Result-cases (p.join (with_defaults cfg) s).0) [
      | inl (u, b) ↦
          rw (a, made)
            (ap (λ (x : Config × Machine p.State). x.1) (sym (ok_inj (rw (a, b, made) at h)))
              ∙ new-idle cfg (p.join (with_defaults cfg) s).1)
      | inr (x, b) ↦ cc (rw (a, b, made) at h)
    ]
    | inr (x, a) ↦ cc (rw (a, made) at h)
  ]

  ran-Settles :
      (fuel : ℕ) (c : Config × Machine p.State) (s : p.State)
      → c.1 ≡ idle p s
      → Settles (ran p fuel c)
  unfolding settling
  ran-Settles fuel c s q =
      let fresh : IsKept (wired p) c.0 settling c.1 = rw q (λ rs e o. absurd o) in
      run-IsKept (wired p) c.0 settling fuel c.1 fresh

  -- On a platform that does what its documentation says, however long the process runs and
  -- wherever it stops: every record of every offset commit that it sent has been settled. Its
  -- event has been in the table, or its copy with the marks of the failed attempt has been
  -- appended to the topic that the route names for a Retry or a Poison.
  pub committed-IsSettled :
      (os : Process) (fuel : ℕ) (s : p.State) (rs : List Record) (e : Option GoError)
      → Occurs (committed rs e) (core p os fuel s).1.trace
      → All (IsSettled (core p os fuel s).1.world) rs
  unfolding core
  committed-IsSettled os fuel s =
      attempt-cases Settles _ _ (λ x t rs e o. absurd o)
        (λ cfg _.
          attempt-cases Settles _ _ (λ x t rs e o. absurd o)
            (λ _ _.
              attempt-cases Settles _ _ (λ x t rs e o. absurd o)
                (λ _ _.
                  attempt-cases Settles _ _ (λ x t rs e o. absurd o)
                    (λ c q. ran-Settles fuel c _ (made-idle cfg _ c q)))))
