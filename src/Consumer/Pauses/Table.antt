-- ===== src/Consumer/Pauses/Table.antt =====
-- internal/consumer/consumer.go: the map `waiting` under a write, a delete and a resumption.
use nine_core.Common.{
  ℕ, List, [], ◌∷◌, Bool, true, false, Bool-cases, not, ◌&&◌, ◌||◌, ◌==◌, ==_iff, ltb, ◌≡◌, refl,
  subst, inl, inr, arith,
}
use nine_core.Consumer.Setup.{put, delete, forget, contains}
use nine_core.Consumer.Run.{ripened, unripe}
use nine_core.Consumer.Pauses.{waits_for}

-- One entry for each partition.
abbrev pub IsUnique : List (ℕ × ℕ) → Type 0
IsUnique [] = Unit
IsUnique ((q, at) ∷ w) = (waits_for w q ≡ false) × IsUnique w

==_sym : (a b : ℕ) → (a == b) ≡ (b == a)
==_sym a b = ground arith

pub and_false : (b : Bool) → (b && false) ≡ false
and_false true = refl
and_false false = refl

pub waits_for-put :
    (q at p : ℕ) (w : List (ℕ × ℕ)) → waits_for (put q at w) p ≡ (q == p || waits_for w p)
unfolding waits_for put
waits_for-put q at p [] = refl
waits_for-put q at p ((x, b) ∷ w) = ground (arith, waits_for-put q at p w)

pub put-IsUnique : (q at : ℕ) (w : List (ℕ × ℕ)) → IsUnique w → IsUnique (put q at w)
unfolding put waits_for
put-IsUnique q at [] u = (refl, tt)
put-IsUnique q at ((x, b) ∷ w) (n, u) = elim (Bool-cases (x == q)) [
  | inl e ↦ rw e (subst (λ y. waits_for w y ≡ false) ((==_iff x q).0 e) n, u)
  | inr e ↦ rw e (rw (waits_for-put q at x w, ==_sym q x, e) n, put-IsUnique q at w u)
]

waits_for-delete :
    (q p : ℕ) (w : List (ℕ × ℕ)) → waits_for (delete q w) p ≡ (not (q == p) && waits_for w p)
unfolding waits_for delete
waits_for-delete q p [] = ground arith
waits_for-delete q p ((x, b) ∷ w) = ground (arith, waits_for-delete q p w)

delete-IsUnique : (q : ℕ) (w : List (ℕ × ℕ)) → IsUnique w → IsUnique (delete q w)
unfolding delete
delete-IsUnique q [] u = tt
delete-IsUnique q ((x, b) ∷ w) (n, u) = elim (Bool-cases (x == q)) [
  | inl e ↦ rw e (delete-IsUnique q w u)
  | inr e ↦ rw e (rw (waits_for-delete q x w, n) (and_false (not (q == x))), delete-IsUnique q w u)
]

pub waits_for-forget :
    (ps : List ℕ) (p : ℕ) (w : List (ℕ × ℕ))
    → waits_for (forget ps w) p ≡ (not (contains ps p) && waits_for w p)
unfolding forget contains
waits_for-forget [] p w = refl
waits_for-forget (q ∷ ps) p w =
    ground (arith, waits_for-forget ps p (delete q w), waits_for-delete q p w)

pub forget-IsUnique : (ps : List ℕ) (w : List (ℕ × ℕ)) → IsUnique w → IsUnique (forget ps w)
unfolding forget
forget-IsUnique [] w u = u
forget-IsUnique (q ∷ ps) w u = forget-IsUnique ps (delete q w) (delete-IsUnique q w u)

or-eq-false : (a b : Bool) → (a || b) ≡ false → (a ≡ false) × (b ≡ false)
or-eq-false true b h = cc
or-eq-false false b h = (refl, h)

-- A partition that ripens was waited for.
pub ripened-waits :
    (now p : ℕ) (w : List (ℕ × ℕ)) → waits_for w p ≡ false → contains (ripened now w) p ≡ false
unfolding waits_for ripened contains
ripened-waits now p [] h = refl
ripened-waits now p ((x, b) ∷ w) h =
    let (apart, rest) = or-eq-false (x == p) (waits_for w p) h in
    elim (Bool-cases (ltb now b)) [
      | inl l ↦ rw l (ripened-waits now p w rest)
      | inr l ↦ rw (l, apart) (ripened-waits now p w rest)
    ]

-- With one entry for each, a partition is waited for after a resumption if it was and is not ripe.
pub waits_for-unripe :
    (now p : ℕ) (w : List (ℕ × ℕ))
    → IsUnique w
    → waits_for (unripe now w) p ≡ (not (contains (ripened now w) p) && waits_for w p)
unfolding waits_for ripened unripe contains
waits_for-unripe now p [] u = refl
waits_for-unripe now p ((x, b) ∷ w) (n, u) =
    let ih = waits_for-unripe now p w u in
    elim (Bool-cases (x == p)) [
      | inl e ↦
          let none_left : waits_for w p ≡ false =
            subst (λ y. waits_for w y ≡ false) ((==_iff x p).0 e) n in
          let unripened = ripened-waits now p w none_left in
          elim (Bool-cases (ltb now b)) [
            | inl l ↦ rw (l, e, unripened) refl
            | inr l ↦ rw (l, e) (rw (none_left, and_false) at ih)
          ]
      | inr e ↦ elim (Bool-cases (ltb now b)) [ inl l ↦ rw (l, e) ih | inr l ↦ rw (l, e) ih ]
    ]

pub unripe-IsUnique : (now : ℕ) (w : List (ℕ × ℕ)) → IsUnique w → IsUnique (unripe now w)
unfolding unripe
unripe-IsUnique now [] u = tt
unripe-IsUnique now ((x, b) ∷ w) (n, u) = elim (Bool-cases (ltb now b)) [
  | inl l ↦ rw l (rw (waits_for-unripe now x w u, n) (and_false _), unripe-IsUnique now w u)
  | inr l ↦ rw l (unripe-IsUnique now w u)
]
