-- ===== src/Consumer/Log/Below.antt =====
-- internal/consumer/consumer.go: what lies below a commit of a trace that leaves no gap.
use nine_core.Common.{
  ◌⊎◌, ℕ, ◌≤◌, List, [], ◌∷◌, Option, none, inl, inr, refl, sym, subst, Occurs, Occurs-append_cases,
}
use nine_core.Kafka.{Record}
use nine_core.Errors.{GoError}
use nine_core.Consumer.Setup.{Call, committed}
use nine_core.Consumer.Log.{IsAmong, committed_records, Covers, IsGapless}

-- A record is one of those of some commit of a trace.
abbrev pub IsOfCommit : List Call → Record → Type 0
IsOfCommit t y = (rs : List Record) × (e : Option GoError) × Occurs (committed rs e) t × Occurs y rs

IsOfCommit-cons : (k : Call) (t : List Call) (y : Record) → IsOfCommit t y → IsOfCommit (k ∷ t) y
IsOfCommit-cons k t y (rs, e, o, h) = (rs, e, inr o, h)

committed_records-IsOfCommit :
    (t : List Call) (y : Record) → Occurs y (committed_records t) → IsOfCommit t y
committed_records-IsOfCommit [] y o = absurd o
committed_records-IsOfCommit (committed rs none ∷ t) y o =
    elim (Occurs-append_cases y rs (committed_records t) o) [
      | inl h ↦ (rs, none, inl refl, h)
      | inr h ↦ IsOfCommit-cons _ t y (committed_records-IsOfCommit t y h)
    ]
committed_records-IsOfCommit (k ∷ t) y o =
    IsOfCommit-cons k t y (committed_records-IsOfCommit t y o)

module _ (log : ℕ → List Record) (others : ℕ → ℕ) where
  IsGapless-tail :
      (k : Call) (t : List Call) → IsGapless log others (k ∷ t) → IsGapless log others t
  IsGapless-tail (committed rs e) t g = g.1
  IsGapless-tail _ t g = g

  -- Whatever the log holds at or below a record of a commit is a record of a commit, or committed by
  -- the other members.
  pub IsGapless-IsOfCommit :
      (t : List Call) (rs : List Record) (e : Option GoError) (x y : Record)
      → IsGapless log others t
      → Occurs (committed rs e) t
      → Occurs x rs
      → Occurs y (log x.partition)
      → y.offset ≤ x.offset
      → IsOfCommit t y ⊎ IsAmong (others x.partition) (log x.partition) y
  IsGapless-IsOfCommit [] rs e x y g o ox oy le = absurd o
  IsGapless-IsOfCommit (k ∷ t) rs e x y g (inr o) ox oy le =
      elim (IsGapless-IsOfCommit t rs e x y (IsGapless-tail k t g) o ox oy le) [
        | inl h ↦ inl (IsOfCommit-cons k t y h)
        | inr h ↦ inr h
      ]
  IsGapless-IsOfCommit (k ∷ t) rs e x y g (inl q) ox oy le =
      let covers : Covers log others rs (committed_records t) =
        (subst (λ h. IsGapless log others (h ∷ t)) (sym q) g).0 in
      elim (covers x y ox oy le) [
        | inr h ↦ inr h
        | inl o ↦ elim (Occurs-append_cases y rs (committed_records t) o) [
          | inl h ↦ inl (rs, e, inl q, h)
          | inr h ↦ inl (IsOfCommit-cons k t y (committed_records-IsOfCommit t y h))
        ]
      ]
