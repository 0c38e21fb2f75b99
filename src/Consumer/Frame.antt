-- ===== src/Consumer/Frame.antt =====
-- internal/consumer/consumer.go: what each step of the consumer keeps, if its single calls do.
pub mod Poll
use nine_core.Common.{
  ℕ, List, [], ◌∷◌, Option, none, some, Bool-cases, inl, inr, ◌⊎◌, ◌≡◌, refl, Option-cases, natural,
  ◌==◌, ℤ,
}
use nine_core.Kafka.{Record}
use nine_core.Errors.{GoError}
use nine_core.Pipeline.{Outcome, unknown, done, retry, poison, fatal, other}
use nine_core.Consumer.{
  ask, note, ripe, hold, forward, answer, settle, one, judge, look, conclude, commit_offsets,
  commit,
}
use nine_core.Consumer.Look.{look_cases}
use nine_core.Consumer.Run.{
  note_resumed, resume_ripe, poll_deadline, poll_context_ended, deadline_passed, fetch, ripened,
  unripe, soonest,
}
use nine_core.Consumer.Setup.{
  Config, Decoded, decoded, undecodable, World, Machine, Call, handled, forwarded, sought, paused,
  resumed, polled, hooked, committed, Fetches,
}

pub Decoded-cases :
    {T : Type 0} (d : Decoded T)
    → ((e : GoError) × (d ≡ undecodable e)) ⊎ ((m : T) × (d ≡ decoded m))
Decoded-cases (undecodable e) = inl (e, refl)
Decoded-cases (decoded m) = inr (m, refl)

-- A relation between the consumer before and after a step, which the calls of the world keep, where
-- a record that is given to the handler or to the sink is one that it is `For`, and the notes of
-- the calls that are `Okay`. The poll keeps it if `Polls` holds.
pub record Frame {T : Type 0} (w : World T) (cfg : Config) : Type 1 where
  pub Rel : Machine w.State → Machine w.State → Type 0
  pub Okay : Call → Type 0
  pub For : Record → Type 0
  pub same : (s : Machine w.State) → Rel s s
  pub joins : (a b c : Machine w.State) → Rel a b → Rel b c → Rel a c
  pub notes : (c : Call) (s : Machine w.State) → Okay c → Rel s (note w cfg c s).1
  pub handles :
      (r : Record) (m : T) (s : Machine w.State)
      → For r
      → w.decode r.key r.value ≡ decoded m
      → Rel s (ask w cfg (w.handle m) s).1
  pub sends :
      (send : Record → Outcome → Option GoError → w.State → Option GoError × w.State)
      → w.sink ≡ some send
      → (r : Record) (o : Outcome) (e : Option GoError) (s : Machine w.State) → For r
      → Rel s (ask w cfg (send r o e) s).1
  pub asks_now : (s : Machine w.State) → Rel s (ask w cfg w.now s).1
  pub asks_cancelled : (s : Machine w.State) → Rel s (ask w cfg w.cancelled s).1
  pub Polls : Type 0
  pub polls :
      Polls → (n : ℤ) (d : Option ℕ) (s : Machine w.State) → Rel s (ask w cfg (w.poll n d) s).1
  pub commits :
      (rs : List Record) (s : Machine w.State) → Rel s (ask w cfg (w.commit_records rs) s).1
  pub hooks :
      (hook : List Record → w.State → Option GoError × w.State)
      → w.hook ≡ some hook
      → (rs : List Record) (s : Machine w.State) → Rel s (ask w cfg (hook rs) s).1

module _ {T : Type 0} {w : World T} {cfg : Config} (f : Frame w cfg) where
  -- The calls that `one` makes for a record.
  abbrev pub Tells : Record → Type 0
  Tells r =
      f.For r
      × ((o : Outcome) → f.Okay (handled r o))
      × ((o : Outcome) (e : Option GoError) → f.Okay (forwarded r o e))

  -- Another `waiting` makes no difference.
  abbrev pub Waits : Type 0
  Waits = (s : Machine w.State) (ws : List (ℕ × ℕ)) → f.Rel s (record s { waiting = ws })

  forward-Rel :
      (r : Record) (o : Outcome) (e : Option GoError) (s : Machine w.State)
      → Tells r
      → f.Rel s (forward w cfg r o e s).1
  unfolding forward
  forward-Rel r o e s t = elim (Option-cases w.sink) [
    | inl q ↦ rw (q, forward) (f.same s)
    | inr (send, q) ↦
        let s1 = (ask w cfg (send r o e) s).1 in
        let told : f.Rel s (note w cfg (forwarded r o (send r o e s.world).0) s1).1 =
          f.joins s s1 _ (f.sends send q r o e s t.0)
            (f.notes _ s1 (t.2 o (send r o e s.world).0)) in
        elim (Option-cases (send r o e s.world).0) [
          | inl a ↦ rw (q, a) (rw a at told)
          | inr (x, a) ↦ rw (q, a) (rw a at told)
        ]
  ]

  settle-Rel :
      (r : Record) (o : Outcome) (e : Option GoError) (s : Machine w.State)
      → Tells r
      → f.Rel s (settle w cfg r o e s).1
  unfolding settle
  settle-Rel r unknown e s t = f.same s
  settle-Rel r done e s t = f.same s
  settle-Rel r retry e s t = forward-Rel r retry e s t
  settle-Rel r poison e s t = forward-Rel r poison e s t
  settle-Rel r fatal e s t = f.same s
  settle-Rel r (other n) e s t = f.same s

  answer-Rel : (r : Record) (s : Machine w.State) → Tells r → f.Rel s (answer w cfg r s).1
  unfolding answer
  answer-Rel r s t = elim (Decoded-cases (w.decode r.key r.value)) [
    | inl (e, q) ↦ rw (q, answer) (f.same s)
    | inr (m, q) ↦
        let s1 = (ask w cfg (w.handle m) s).1 in
        rw (q, answer)
          (f.joins s s1 _ (f.handles r m s t.0 q)
            (f.notes (handled r (w.handle m s.world).0.0) s1 (t.1 _)))
  ]

  pub one-Rel : (r : Record) (s : Machine w.State) → Tells r → f.Rel s (one w cfg r s).1
  unfolding one
  one-Rel r s t = f.joins s _ _ (answer-Rel r s t) (settle-Rel r _ _ (answer w cfg r s).1 t)

  pub judge-Rel : (e : Option GoError) (s : Machine w.State) → f.Rel s (judge w cfg e s).1
  unfolding judge
  judge-Rel none s = f.same s
  judge-Rel (some e) s = f.asks_cancelled s

  pub ripe-Rel : (r : Record) (s : Machine w.State) → f.Rel s (ripe w cfg r s).1
  unfolding ripe
  ripe-Rel r s = elim (Bool-cases (natural cfg.delay == 0)) [
    | inl z ↦ rw z (f.same s)
    | inr z ↦ rw z (f.asks_now s)
  ]

  pub hold-Rel :
      (r : Record) (at : ℕ) (s : Machine w.State)
      → f.Okay (sought r.partition r.offset)
      → f.Okay (paused r.partition)
      → Waits
      → f.Rel s (hold w cfg r at s).1
  unfolding hold
  hold-Rel r at s okay okay' waits =
      let s1 = (note w cfg (sought r.partition r.offset) s).1 in
      let s2 = (note w cfg (paused r.partition) s1).1 in
      f.joins s s1 _ (f.notes _ s okay) (f.joins s1 s2 _ (f.notes _ s1 okay') (waits s2 _))

  pub look-Rel :
      (held : List ℕ) (r : Record) (s : Machine w.State)
      → Tells r
      → f.Okay (sought r.partition r.offset)
      → f.Okay (paused r.partition)
      → Waits
      → f.Rel s (look w cfg held r s).1
  look-Rel held r s t okay okay' waits =
      let s1 = (ripe w cfg r s).1 in
      let s2 = (one w cfg r s1).1 in
      look_cases w cfg (λ v s'. f.Rel s s') held r s (λ e. f.same s)
        (λ e d. f.joins s s1 _ (ripe-Rel r s) (hold-Rel r _ s1 okay okay' waits))
        (λ e d.
          f.joins s s1 _ (ripe-Rel r s)
            (f.joins s1 s2 _ (one-Rel r s1 t) (judge-Rel (one w cfg r s1).0 s2)))

  pub conclude-Rel : (e x : Option GoError) (s : Machine w.State) → f.Rel s (conclude w cfg e x s).1
  unfolding conclude
  conclude-Rel (some e) x s = f.same s
  conclude-Rel none (some x) s = f.same s
  conclude-Rel none none s = f.asks_cancelled s

  commit_offsets-Rel :
      (rs : List Record) (s : Machine w.State)
      → ((e : Option GoError) → f.Okay (committed rs e))
      → f.Rel s (commit_offsets w cfg rs s).1
  unfolding commit_offsets
  commit_offsets-Rel rs s okay =
      let s1 = (ask w cfg (w.commit_records rs) s).1 in
      let e = (w.commit_records rs s.world).0 in
      let told = f.joins s s1 _ (f.commits rs s) (f.notes (committed rs e) s1 (okay e)) in
      elim (Option-cases (w.commit_records rs s.world).0) [
        | inl q ↦ rw q (rw q at told)
        | inr (x, q) ↦ rw q (rw q at told)
      ]

  pub commit-Rel :
      (rs : List Record) (s : Machine w.State)
      → ((e : Option GoError) → f.Okay (hooked rs e))
      → ((e : Option GoError) → f.Okay (committed rs e))
      → f.Rel s (commit w cfg rs s).1
  unfolding commit commit_offsets
  commit-Rel [] s okay okay' = f.same s
  commit-Rel (r ∷ rs) s okay okay' = elim (Option-cases w.hook) [
    | inl q ↦ rw q (commit_offsets-Rel (r ∷ rs) s okay')
    | inr (hook, q) ↦
        let s1 = (ask w cfg (hook (r ∷ rs)) s).1 in
        let e = (hook (r ∷ rs) s.world).0 in
        let s2 = (note w cfg (hooked (r ∷ rs) e) s1).1 in
        let told : f.Rel s s2 =
          f.joins s s1 s2 (f.hooks hook q (r ∷ rs) s) (f.notes (hooked (r ∷ rs) e) s1 (okay e)) in
        let last : f.Rel s (commit_offsets w cfg (r ∷ rs) s2).1 =
          f.joins s s2 _ told (commit_offsets-Rel (r ∷ rs) s2 okay') in
        elim (Option-cases (hook (r ∷ rs) s.world).0) [
          | inl a ↦ rw (q, a) (rw a at last)
          | inr (x, a) ↦ rw (q, a) (rw a at told)
        ]
  ]
