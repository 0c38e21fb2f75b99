-- ===== src/Consumer/Promise/Loop.antt =====
-- internal/consumer/consumer.go: what a commit promises, over the rounds of `Run`.
use nine_core.Common.{
  ℕ, zero, suc, List, [], ◌∷◌, Option, Bool, true, false, Bool-cases, inl, inr, refl, sym, subst,
  ap, Option-cases, All, All-map,
}
use nine_core.Kafka.{Record}
use nine_core.Errors.{GoError}
use nine_core.Consumer.{ask, note, process, commit_offsets, commit, batch_body, batch}
use nine_core.Consumer.Run.{after_poll, round, run}
use nine_core.Consumer.Setup.{
  Config, World, Machine, Call, hooked, rebalance_allowed, committed, Fetches,
}
use nine_core.Consumer.Frame.{conclude-Rel}
use nine_core.Consumer.Frame.Poll.{first_half-Rel}
use nine_core.Consumer.Promise.{
  quiet, Promise, Quiet-trans, Quiet-IsKept, asked-Quiet, waits-Quiet, noted-Quiet, IsKept, Quiet,
}
use nine_core.Consumer.Promise.Settles.{process_from-Accounts}

module _ {T : Type 0} (w : World T) (cfg : Config) (p : Promise w) where
  abbrev records_of : Call → List Record
  records_of (committed rs e) = rs
  records_of _ = []

  -- A commit of records that have what was promised.
  committed-IsKept :
      (rs : List Record) (x : Option GoError) (s : Machine w.State)
      → IsKept w cfg p s
      → All (p.Holds s.world) rs
      → IsKept w cfg p (note w cfg (committed rs x) (ask w cfg (w.commit_records rs) s).1).1
  committed-IsKept rs x s k a rs' e o = All-map _ _ (p.commit_keeps rs s.world) rs' (elim o [
    | inl q ↦ subst (All (p.Holds s.world)) (sym (ap records_of q)) a
    | inr t ↦ k rs' e t
  ])

  commit_offsets-IsKept :
      (rs : List Record) (s : Machine w.State)
      → IsKept w cfg p s
      → All (p.Holds s.world) rs
      → IsKept w cfg p (commit_offsets w cfg rs s).1
  unfolding commit_offsets
  commit_offsets-IsKept rs s k a =
      let made = committed-IsKept rs (w.commit_records rs s.world).0 s k a in
      elim (Option-cases (w.commit_records rs s.world).0) [
        | inl q ↦ rw q (rw q at made)
        | inr (e, q) ↦ rw q (rw q at made)
      ]

  commit-IsKept :
      (rs : List Record) (s : Machine w.State)
      → IsKept w cfg p s
      → All (p.Holds s.world) rs
      → IsKept w cfg p (commit w cfg rs s).1
  unfolding commit commit_offsets
  commit-IsKept [] s k a = k
  commit-IsKept (r ∷ rs) s k a = elim (Option-cases w.hook) [
    | inl q ↦ rw q (commit_offsets-IsKept (r ∷ rs) s k a)
    | inr (hook, q) ↦
        let s1 =
          (note w cfg (hooked (r ∷ rs) (hook (r ∷ rs) s.world).0)
            (ask w cfg (hook (r ∷ rs)) s).1).1 in
        let told : Quiet w cfg p s s1 =
          Quiet-trans w cfg p (asked-Quiet w cfg p (hook (r ∷ rs)) s (p.hook_keeps hook q (r ∷ rs)))
            (noted-Quiet w cfg p (hooked (r ∷ rs) (hook (r ∷ rs) s.world).0) _ refl) in
        let then_kept = Quiet-IsKept w cfg p told k in
        let last =
          commit_offsets-IsKept (r ∷ rs) s1 then_kept (All-map _ _ told.holds (r ∷ rs) a) in
        elim (Option-cases (hook (r ∷ rs) s.world).0) [
          | inl e ↦ rw (q, e) (rw e at last)
          | inr (x, e) ↦ rw (q, e) (rw e at then_kept)
        ]
  ]

  batch_body-IsKept :
      (f : Fetches) (s : Machine w.State)
      → IsKept w cfg p s
      → IsKept w cfg p (batch_body w cfg f s).1
  unfolding batch_body process
  batch_body-IsKept f s k = elim (Bool-cases f.closed) [
    | inl c ↦ rw c k
    | inr c ↦
        let (q, a) = process_from-Accounts w cfg p f.records [] [] s tt in
        rw c (
          Quiet-IsKept w cfg p (conclude-Rel (quiet w cfg p) _ _ _)
            (commit-IsKept _ _ (Quiet-IsKept w cfg p q k) a))
  ]

  batch-IsKept :
      (f : Fetches) (s : Machine w.State) → IsKept w cfg p s → IsKept w cfg p (batch w cfg f s).1
  unfolding batch
  batch-IsKept f s k =
      Quiet-IsKept w cfg p (noted-Quiet w cfg p rebalance_allowed (batch_body w cfg f s).1 refl)
        (batch_body-IsKept f s k)

  after_poll-IsKept :
      (f : Fetches) (b : Bool) (s : Machine w.State)
      → IsKept w cfg p s
      → IsKept w cfg p (after_poll w cfg f b s).1
  unfolding after_poll
  after_poll-IsKept f true s k =
      Quiet-IsKept w cfg p (noted-Quiet w cfg p rebalance_allowed s refl) k
  after_poll-IsKept f false s k = batch-IsKept f s k

  round-IsKept : (s : Machine w.State) → IsKept w cfg p s → IsKept w cfg p (round w cfg s).1
  unfolding round
  round-IsKept s k = after_poll-IsKept _ _ _ (
      Quiet-IsKept w cfg p
        (first_half-Rel (quiet w cfg p) s (λ qs. refl) (λ x. refl) (λ t ws. waits-Quiet w cfg p) tt)
        k)

  -- However many rounds `Run` makes: if every record of every commit so far has what was promised,
  -- so has every record of every commit after them.
  pub run-IsKept :
      (fuel : ℕ) (s : Machine w.State) → IsKept w cfg p s → IsKept w cfg p (run w cfg fuel s).1
  unfolding run
  run-IsKept zero s k = k
  run-IsKept (suc fuel) s k = elim (Option-cases (round w cfg s).0) [
    | inl q ↦ rw (q, run) (run-IsKept fuel (round w cfg s).1 (round-IsKept s k))
    | inr (x, q) ↦ rw (q, run) (round-IsKept s k)
  ]
