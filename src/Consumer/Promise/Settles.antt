-- ===== src/Consumer/Promise/Settles.antt =====
-- internal/consumer/consumer.go: what `process` accounts for has what was promised.
use nine_core.Common.{
  ℕ, List, [], ◌∷◌, ◌++◌, Option, none, some, Bool-cases, inl, inr, ◌⊎◌, ◌≡◌, refl, Option-cases,
  All, All-append, All-map,
}
use nine_core.Kafka.{Record}
use nine_core.Errors.{GoError}
use nine_core.Pipeline.{Outcome, unknown, done, retry, poison, fatal, other}
use nine_core.Consumer.{
  forward, answer, settle, one, judge, look, next, process_from, Verdict, passed_over, held_back,
  accounted, left, stopped_by,
}
use nine_core.Consumer.Look.{look_cases}
use nine_core.Consumer.Setup.{Config, World, Machine}
use nine_core.Consumer.Frame.{Decoded-cases}
use nine_core.Consumer.Promise.{Promise, still, Quiet-trans, look-Quiet, Quiet}

module _ {T : Type 0} (w : World T) (cfg : Config) (p : Promise w) where
  -- What was accounted for has what was promised.
  forward-Holds :
      (r : Record) (o : Outcome) (e : Option GoError) (s : Machine w.State)
      → (o ≡ retry) ⊎ (o ≡ poison)
      → (forward w cfg r o e s).0 ≡ none
      → p.Holds (forward w cfg r o e s).1.world r
  unfolding forward
  forward-Holds r o e s which h = elim (Option-cases w.sink) [
    | inl q ↦ cc (rw q at h)
    | inr (send, q) ↦ elim (Option-cases (send r o e s.world).0) [
      | inl f ↦ rw (q, f) (p.by_sink send q r o e s.world which f)
      | inr (x, f) ↦ cc (rw (q, f) at h)
    ]
  ]

  settle-Holds :
      (r : Record) (o : Outcome) (e : Option GoError) (s : Machine w.State)
      → (o ≡ done → p.Holds s.world r)
      → (settle w cfg r o e s).0 ≡ none
      → p.Holds (settle w cfg r o e s).1.world r
  unfolding settle
  settle-Holds r unknown e s d h = cc
  settle-Holds r done e s d h = d refl
  settle-Holds r retry e s d h = forward-Holds r retry e s (inl refl) h
  settle-Holds r poison e s d h = forward-Holds r poison e s (inr refl) h
  settle-Holds r fatal e s d h = cc
  settle-Holds r (other n) e s d h = cc

  answer-Holds :
      (r : Record) (s : Machine w.State)
      → (answer w cfg r s).0.0 ≡ done
      → p.Holds (answer w cfg r s).1.world r
  unfolding answer
  answer-Holds r s h = elim (Decoded-cases (w.decode r.key r.value)) [
    | inl (e, q) ↦ cc (rw (q, answer) at h)
    | inr (m, q) ↦ rw (q, answer) (p.by_handler r m s.world q (rw (q, answer) at h))
  ]

  one-Holds :
      (r : Record) (s : Machine w.State)
      → (one w cfg r s).0 ≡ none
      → p.Holds (one w cfg r s).1.world r
  unfolding one
  one-Holds r s h = settle-Holds r _ _ _ (answer-Holds r s) h

  judge-Holds :
      (r : Record) (e : Option GoError) (s : Machine w.State)
      → (e ≡ none → p.Holds s.world r)
      → (judge w cfg e s).0 ≡ accounted
      → p.Holds (judge w cfg e s).1.world r
  unfolding judge
  judge-Holds r none s k h = k refl
  judge-Holds r (some e) s k h = elim (Bool-cases (w.cancelled s.world).0) [
    | inl c ↦ cc (rw c at h)
    | inr c ↦ cc (rw c at h)
  ]

  look-Holds :
      (held : List ℕ) (r : Record) (s : Machine w.State)
      → (look w cfg held r s).0 ≡ accounted
      → p.Holds (look w cfg held r s).1.world r
  look-Holds held r s =
      look_cases w cfg (λ v s'. v ≡ accounted → p.Holds s'.world r) held r s (λ e h. cc)
        (λ e d h. cc) (λ e d h. judge-Holds r _ _ (one-Holds r _) h)

  -- The batch so far: nothing was committed, and what was accounted for has what was promised.
  abbrev Accounts : Machine w.State → List Record → Machine w.State → Type 0
  Accounts s acked s' = Quiet w cfg p s s' × All (p.Holds s'.world) acked

  next-Accounts :
      (v : Verdict) (r : Record) (held : List ℕ) (acked : List Record)
      (loop : List ℕ
        → List Record
        → Machine w.State
        → (List Record × Option GoError) × Machine w.State)
      (s0 s : Machine w.State)
      → Quiet w cfg p s0 s
      → (v ≡ accounted → p.Holds s.world r)
      → All (p.Holds s.world) acked
      → ((held' : List ℕ) (acked' : List Record)
          → All (p.Holds s.world) acked'
          → Accounts s (loop held' acked' s).0.0 (loop held' acked' s).1)
      → let o = next w cfg v r held acked loop s in Accounts s0 o.0.0 o.1
  unfolding next
  next-Accounts passed_over r held acked loop s0 s q a k ih =
      let (q', k') = ih held acked k in (Quiet-trans w cfg p q q', k')
  next-Accounts held_back r held acked loop s0 s q a k ih =
      let (q', k') = ih (r.partition ∷ held) acked k in (Quiet-trans w cfg p q q', k')
  next-Accounts accounted r held acked loop s0 s q a k ih =
      let (q', k') = ih held (acked ++ r ∷ []) (All-append _ acked (r ∷ []) k (a refl, tt)) in
      (Quiet-trans w cfg p q q', k')
  next-Accounts left r held acked loop s0 s q a k ih = (q, k)
  next-Accounts (stopped_by e) r held acked loop s0 s q a k ih = (q, k)

  pub process_from-Accounts :
      (rs : List Record) (held : List ℕ) (acked : List Record) (s : Machine w.State)
      → All (p.Holds s.world) acked
      → let o = process_from w cfg rs held acked s in Accounts s o.0.0 o.1
  unfolding process_from
  process_from-Accounts [] held acked s k = (still w cfg p, k)
  process_from-Accounts (r ∷ rs) held acked s k =
      let q = look-Quiet w cfg p held r s in
      next-Accounts (look w cfg held r s).0 r held acked (process_from w cfg rs) s
        (look w cfg held r s).1 q (look-Holds held r s) (All-map _ _ q.holds acked k)
        (λ held' acked'. process_from-Accounts rs held' acked' (look w cfg held r s).1)
