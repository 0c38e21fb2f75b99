-- ===== src/Consumer/Look.antt =====
-- The cases of the loop body of `process`.
use nine_core.Common.{ℕ, List, true, false, Bool-cases, inl, inr, ◌≡◌}
use nine_core.Kafka.{Record}
use nine_core.Consumer.{ripe, hold, one, judge, look, Verdict, passed_over, held_back}
use nine_core.Consumer.Setup.{Config, World, Machine, contains}

module _ {T : Type 0} (w : World T) (cfg : Config) where
  -- The three ways through the body of the loop.
  pub look_cases {ℓ} :
      (P : Verdict → Machine w.State → Type ℓ) (held : List ℕ) (r : Record) (s : Machine w.State)
      → let u = (ripe w cfg r s).0 in
        let s1 = (ripe w cfg r s).1 in
        (contains held r.partition ≡ true → P passed_over s)
        → (contains held r.partition ≡ false → u.1 ≡ false → P held_back (hold w cfg r u.0 s1).1)
        → (contains held r.partition ≡ false
            → u.1 ≡ true
            → P
                (judge w cfg (one w cfg r s1).0 (one w cfg r s1).1).0
                (judge w cfg (one w cfg r s1).0 (one w cfg r s1).1).1)
        → P (look w cfg held r s).0 (look w cfg held r s).1
  unfolding look
  look_cases P held r s over early due = elim (Bool-cases (contains held r.partition)) [
    | inl e ↦ rw e (over e)
    | inr e ↦ elim (Bool-cases (ripe w cfg r s).0.1) [
      | inl d ↦ rw (e, d) (due e d)
      | inr d ↦ rw (e, d) (early e d)
    ]
  ]
