-- ===== src/Common/Lists.antt =====
-- Lists measured by native numbers, and predicates on lists by recursion.
use Prim.Native.Nat.{ℕ, zero, suc, ◌+◌, ◌≤◌}
use mathlib.Core.Path.{◌≡◌, refl, sym, ap, subst}
use mathlib.Core.Logic.{◌⊎◌, inl, inr}
use mathlib.Core.List.{List, [], ◌∷◌, ◌++◌}
use mathlib.Core.Option.{Option, none, some}
use native.Mathlib.Omega.{arith}

module _ {ℓ} {A : Type ℓ} where
  abbrev pub length : List A → ℕ
  length [] = 0
  length (x ∷ xs) = suc (length xs)

  -- The first `n` values, and the others.
  abbrev pub take : ℕ → List A → List A
  take zero xs = []
  take (suc n) [] = []
  take (suc n) (x ∷ xs) = x ∷ take n xs

  abbrev pub drop : ℕ → List A → List A
  drop zero xs = xs
  drop (suc n) [] = []
  drop (suc n) (x ∷ xs) = drop n xs

  pub append-take-drop : (n : ℕ) (xs : List A) → take n xs ++ drop n xs ≡ xs
  append-take-drop zero xs = refl
  append-take-drop (suc n) [] = refl
  append-take-drop (suc n) (x ∷ xs) = ap (◌∷◌ x) (append-take-drop n xs)

  length-append : (xs ys : List A) → length (xs ++ ys) ≡ length xs + length ys
  length-append [] ys = omega arith
  length-append (x ∷ xs) ys = omega (arith, length-append xs ys)

-- A value stands in a list, as a sum that tactics take apart.
abbrev pub Occurs : {A : Type 0} → A → List A → Type 0
Occurs a [] = ⊥
Occurs a (x ∷ xs) = (a ≡ x) ⊎ Occurs a xs

module _ {ℓ κ} {A : Type ℓ} (P : A → Type κ) where
  abbrev pub All : List A → Type κ
  All [] = Unit
  All (x ∷ xs) = P x × All xs

  pub All-each : (xs : List A) → ((x : A) → P x) → All xs
  All-each [] h = tt
  All-each (x ∷ xs) h = (h x, All-each xs h)

  pub All-append : (xs ys : List A) → All xs → All ys → All (xs ++ ys)
  All-append [] ys hx hy = hy
  All-append (x ∷ xs) ys (px, hx) hy = (px, All-append xs ys hx hy)

-- `Option` as a monad, for chains of partial steps.
infixl 5 ◌>>=◌
abbrev pub ◌>>=◌ {ℓ κ} : {A : Type ℓ} {B : Type κ} → Option A → (A → Option B) → Option B
none >>= f = none
some a >>= f = f a

-- The value of an option, and the empty list where there is none.
abbrev pub get_text {ℓ} : {A : Type ℓ} → Option (List A) → List A
get_text none = []
get_text (some s) = s

module _ {A : Type 0} where
  pub Occurs-append_left : (a : A) (xs ys : List A) → Occurs a xs → Occurs a (xs ++ ys)
  Occurs-append_left a [] ys h = absurd h
  Occurs-append_left a (x ∷ xs) ys (inl e) = inl e
  Occurs-append_left a (x ∷ xs) ys (inr h) = inr (Occurs-append_left a xs ys h)

  pub Occurs-append_right : (a : A) (xs ys : List A) → Occurs a ys → Occurs a (xs ++ ys)
  Occurs-append_right a [] ys h = h
  Occurs-append_right a (x ∷ xs) ys h = inr (Occurs-append_right a xs ys h)

  pub Occurs-append_cases :
      (a : A) (xs ys : List A) → Occurs a (xs ++ ys) → Occurs a xs ⊎ Occurs a ys
  Occurs-append_cases a [] ys h = inr h
  Occurs-append_cases a (x ∷ xs) ys (inl e) = inl (inl e)
  Occurs-append_cases a (x ∷ xs) ys (inr h) = elim (Occurs-append_cases a xs ys h) [
    | inl k ↦ inl (inr k)
    | inr k ↦ inr k
  ]

  pub All-Occurs {κ} : (P : A → Type κ) (xs : List A) (a : A) → All P xs → Occurs a xs → P a
  All-Occurs P [] a h o = absurd o
  All-Occurs P (x ∷ xs) a (px, h) (inl e) = subst P (sym e) px
  All-Occurs P (x ∷ xs) a (px, h) (inr o) = All-Occurs P xs a h o

  pub All-map {κ} : (P Q : A → Type κ) → ((a : A) → P a → Q a) → (xs : List A) → All P xs → All Q xs
  All-map P Q f [] h = h
  All-map P Q f (x ∷ xs) (px, h) = (f x px, All-map P Q f xs h)

module _ {ℓ} {A : Type ℓ} where
  abbrev pub get_elem? : List A → ℕ → Option A
  get_elem? [] i = none
  get_elem? (x ∷ xs) zero = some x
  get_elem? (x ∷ xs) (suc i) = get_elem? xs i

-- A shorter part of a list stands in a longer one, and a part and what follows it in the longer one.
pub Occurs-take :
    {A : Type 0} (a : A) (m n : ℕ) (xs : List A)
    → m ≤ n
    → Occurs a (take m xs)
    → Occurs a (take n xs)
Occurs-take a zero n xs h o = absurd o
Occurs-take a (suc m) zero xs h o = absurd (omega (arith, h))
Occurs-take a (suc m) (suc n) [] h o = o
Occurs-take a (suc m) (suc n) (x ∷ xs) h (inl e) = inl e
Occurs-take a (suc m) (suc n) (x ∷ xs) h (inr o) = inr (Occurs-take a m n xs (omega (arith, h)) o)

pub Occurs-take_cases :
    {A : Type 0} (a : A) (k m n : ℕ) (xs : List A)
    → k ≤ m + n
    → Occurs a (take k xs)
    → Occurs a (take m xs) ⊎ Occurs a (take n (drop m xs))
Occurs-take_cases a zero m n xs h o = absurd o
Occurs-take_cases a (suc k) zero n xs h o = inr (Occurs-take a (suc k) n xs (omega (arith, h)) o)
Occurs-take_cases a (suc k) (suc m) n [] h o = absurd o
Occurs-take_cases a (suc k) (suc m) n (x ∷ xs) h (inl e) = inl (inl e)
Occurs-take_cases a (suc k) (suc m) n (x ∷ xs) h (inr o) =
    elim (Occurs-take_cases a k m n xs (omega (arith, h)) o) [ inl t ↦ inl (inr t) | inr t ↦ inr t ]
