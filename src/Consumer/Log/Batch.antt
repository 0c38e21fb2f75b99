-- ===== src/Consumer/Log/Batch.antt =====
-- internal/consumer/consumer.go: one batch of a topic without a delay, and the log.
use nine_core.Common.{
  ℕ, ◌≤◌, ◌<◌, List, [], ◌∷◌, ◌++◌, Option, none, some, Bool-cases, inl, inr, ◌⊎◌, ◌≡◌, refl, subst,
  arith, natural, Occurs, Occurs-append_cases, Occurs-append_left, take, drop, append-take-drop,
  All, append_assoc, append-nil,
}
use nine_core.Kafka.{Record}
use nine_core.Errors.{GoError}
use nine_core.Consumer.{
  ripe, one, judge, look, next, process_from, process, accounted, left, stopped_by,
}
use nine_core.Consumer.Look.{look_cases}
use nine_core.Consumer.Setup.{Config, World, Machine, contains}
use nine_core.Consumer.Prefix.{IsPrefixOf}
use nine_core.Consumer.Offsets.{Ascends, Ascends-append, IsPrefixOf-Occurs}
use nine_core.Consumer.Rounds.{ripe_undelayed}
use nine_core.Consumer.Log.{Context}

-- Both parts of a rising list rise.
Ascends-left : (xs ys : List Record) → Ascends (xs ++ ys) → Ascends xs
Ascends-left [] ys h = tt
Ascends-left (x ∷ xs) ys (b, h) = (front xs b, Ascends-left xs ys h)
  where
    front :
        (zs : List Record)
        → All (λ a. x.offset < a.offset) (zs ++ ys)
        → All (λ a. x.offset < a.offset) zs
    front [] k = tt
    front (z ∷ zs) (k, ks) = (k, front zs ks)

Ascends-right : (xs ys : List Record) → Ascends (xs ++ ys) → Ascends ys
Ascends-right [] ys h = h
Ascends-right (x ∷ xs) ys (b, h) = Ascends-right xs ys h

-- Of some records in a row of a rising list, and an initial part of them, what lies at or below one
-- of that part is in front of the row or in the part.
pub covered :
    (all part others : List Record) (from many : ℕ) (x y : Record)
    → Ascends all
    → IsPrefixOf part (take many (drop from all))
    → Occurs x part
    → Occurs y all
    → y.offset ≤ x.offset
    → Occurs y (take from all) ⊎ Occurs y part
covered all part others from many x y up pre ox oy le =
    let row = take many (drop from all) in
    let rest = drop many (drop from all) in
    let split = append-take-drop from all in
    let split' = append-take-drop many (drop from all) in
    let up' : Ascends (row ++ rest) =
      rw split' (Ascends-right (take from all) (drop from all) (rw split up)) in
    let in_row : Occurs x row = rw (← pre.1) (Occurs-append_left x part pre.0 ox) in
    elim (Occurs-append_cases y (take from all) (drop from all) (rw split oy)) [
      | inl o ↦ inl o
      | inr o ↦ elim (Occurs-append_cases y row rest (rw split' o)) [
        | inl k ↦ inr (IsPrefixOf-Occurs part row x y pre (Ascends-left row rest up') ox k le)
        | inr k ↦
            let lt : x.offset < y.offset = Ascends-append row rest x y up' in_row k in
            absurd (omega arith)
      ]
    ]

module _ {T : Type 0} (w : World T) (cfg : Config) (x : Context w)
    (undelayed : natural cfg.delay ≡ 0) where
  abbrev Ended : Machine w.State → Type 0
  Ended s = x.ending.HasEnded s.world

  judge-ends :
      (e : Option GoError) (s : Machine w.State)
      → let v = (judge w cfg e s).0 in
        (v ≡ accounted)
        ⊎ ((v ≡ left) × Ended (judge w cfg e s).1)
        ⊎ ((y : GoError) × (v ≡ stopped_by y))
  unfolding judge
  judge-ends none s = inl refl
  judge-ends (some e) s = elim (Bool-cases (w.cancelled s.world).0) [
    | inl c ↦ inr (inl (rw c refl, x.begins s.world c))
    | inr c ↦ inr (inr (e, rw c refl))
  ]

  -- A record of a batch in which no partition is held.
  look-ends :
      (r : Record) (s : Machine w.State)
      → let v = (look w cfg [] r s).0 in
        (v ≡ accounted)
        ⊎ ((v ≡ left) × Ended (look w cfg [] r s).1)
        ⊎ ((y : GoError) × (v ≡ stopped_by y))
  unfolding contains
  look-ends r s =
      let (due, same) = ripe_undelayed w cfg undelayed r s in
      look_cases w cfg
        (λ v t. (v ≡ accounted) ⊎ ((v ≡ left) × Ended t) ⊎ ((y : GoError) × (v ≡ stopped_by y))) []
        r s (λ e. cc) (λ e d. cc)
        (λ e d. judge-ends (one w cfg r (ripe w cfg r s).1).0 (one w cfg r (ripe w cfg r s).1).1)

  -- A batch is accounted for as a whole, or the consumer stops at it, or the context has ended.
  abbrev Finishes : List Record → (List Record × Option GoError) × Machine w.State → Type 0
  Finishes all o = (o.0 ≡ (all, none)) ⊎ ((y : GoError) × (o.0.1 ≡ some y)) ⊎ Ended o.1

  process_from-Finishes :
      (rs acked : List Record) (s : Machine w.State)
      → Finishes (acked ++ rs) (process_from w cfg rs [] acked s)
  unfolding process_from next
  process_from-Finishes [] acked s = inl (rw append-nil refl)
  process_from-Finishes (r ∷ rs) acked s =
      let s1 = (look w cfg [] r s).1 in
      elim (look-ends r s) [
        | inl a ↦ rw a (
            subst (λ l. Finishes l (process_from w cfg rs [] (acked ++ r ∷ []) s1))
              (append_assoc acked (r ∷ []) rs) (process_from-Finishes rs (acked ++ r ∷ []) s1))
        | inr (inl (l, e)) ↦ rw l (inr (inr e))
        | inr (inr (y, q)) ↦ rw q (inr (inl (y, refl)))
      ]

  pub process-Finishes : (rs : List Record) (s : Machine w.State) → Finishes rs (process w cfg rs s)
  unfolding process
  process-Finishes rs s = process_from-Finishes rs [] s
