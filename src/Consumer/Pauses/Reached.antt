-- ===== src/Consumer/Pauses/Reached.antt =====
-- internal/consumer/consumer.go: the paused partitions over any order of rounds and rebalances.
use nine_core.Common.{
  ℕ, List, true, false, Bool-cases, ◌==◌, ==_iff, ◌≡◌, refl, sym, subst, inl, inr,
}
use nine_core.Consumer.Setup.{Config, World, Machine, contains}
use nine_core.Consumer.Pauses.{waits_for, paused_now, forgotten, Reach}
use nine_core.Consumer.Pauses.Table.{
  IsUnique, waits_for-forget, forget-IsUnique, ripened-waits, and_false,
}
use nine_core.Consumer.Pauses.Steps.{
  Reach-keeps, hold-waits, hold-IsUnique, resume_ripe-waits, ready,
}

module _ {T : Type 0} (w : World T) (cfg : Config) (p : ℕ) where
  -- One entry for each partition, and `p` has one exactly if it is paused.
  abbrev IsSync : Machine w.State → Type 0
  IsSync s = IsUnique s.waiting × (paused_now s.trace p ≡ waits_for s.waiting p)

  -- One entry for each partition, and `p` is paused without one.
  abbrev IsStuck : Machine w.State → Type 0
  IsStuck s = IsUnique s.waiting × (paused_now s.trace p ≡ true) × (waits_for s.waiting p ≡ false)

  abbrev Spares : List ℕ → Type 0
  Spares ps = contains ps p ≡ false

  -- As long as a partition is not revoked, the client has it paused exactly if the consumer waits
  -- for it, whatever the rounds fetch and in whatever order they and the callbacks for other
  -- partitions come, if it is so at the start and no partition has two entries there.
  pub Reach-IsSync :
      (s : Machine w.State) {t : Machine w.State}
      → IsSync s
      → Reach w cfg (λ ps. contains ps p ≡ false) s t
      → paused_now t.trace p ≡ waits_for t.waiting p
  Reach-IsSync s {t} start r =
      (Reach-keeps w cfg IsSync (λ x. Unit {0})
        (λ a b f k. (subst IsUnique (sym f.0) k.0, rw (f.0, f.1 p) k.1))
        (λ x at a o k.
          let (entries, pauses) = hold-waits w cfg x at a p in
          (hold-IsUnique w cfg x at a k.0, rw (entries, pauses, k.1) refl))
        Spares
        (λ a k.
          let (entries, pauses, u) = resume_ripe-waits w cfg a p k.0 in
          (u, rw (entries, pauses, k.1) refl))
        (λ ps a m k.
          (forget-IsUnique ps a.waiting k.0, rw (waits_for-forget ps p a.waiting, m) k.1))
        (λ x a k u. tt) s r start).1

  -- A partition that is revoked while the client has it paused stays paused, and the consumer does
  -- not wait for it, whatever follows: no later round resumes it, although it may be assigned to
  -- this consumer again.
  pub revoked_stays_paused :
      (ps : List ℕ) (s : Machine w.State) {t : Machine w.State}
      → IsUnique s.waiting
      → paused_now s.trace p ≡ true
      → contains ps p ≡ true
      → Reach w cfg (λ qs. Unit {0}) (forgotten w cfg ps s) t
      → (paused_now t.trace p ≡ true) × (waits_for t.waiting p ≡ false)
  revoked_stays_paused ps s {t} u paused_at_first among r =
      let stuck : IsStuck t =
        Reach-keeps w cfg IsStuck (λ x. (x.partition == p) ≡ false)
          (λ a b f k. (subst IsUnique (sym f.0) k.0, rw (f.1 p) k.1, rw f.0 k.2))
          (λ x at a o k.
            let (entries, pauses) = hold-waits w cfg x at a p in
            (hold-IsUnique w cfg x at a k.0, rw (pauses, o) k.1, rw (entries, o) k.2))
          (λ qs. Unit)
          (λ a k.
            let (entries, pauses, v) = resume_ripe-waits w cfg a p k.0 in
            let not_ready : contains (ready w cfg a) p ≡ false = ripened-waits _ p a.waiting k.2 in
            (v, rw (pauses, not_ready) k.1, rw (entries, not_ready) k.2))
          (λ qs a m k. (
            forget-IsUnique qs a.waiting k.0,
            k.1,
            rw (waits_for-forget qs p a.waiting, k.2) (and_false _),
          ))
          (λ x a k un. elim (Bool-cases (x.partition == p)) [
            | inl e ↦ let same = (==_iff x.partition p).0 e in cc (rw same at un)
            | inr e ↦ e
          ])
          _ r
          (
            forget-IsUnique ps s.waiting u,
            paused_at_first,
            rw (waits_for-forget ps p s.waiting, among) refl,
          ) in
      (stuck.1, stuck.2)
