-- ===== src/Errors.antt =====
-- Go error values as the program reads them: the text of `Error()` and what `errors.Is` and
-- `errors.As` find on the chain that `fmt.Errorf` with `%w` builds.
use nine_core.Common.{
  Bool, true, false, ◌||◌, List, [], ◌∷◌, ◌++◌, Option, none, some, ◌≡◌, refl, ◌⊎◌, inl, inr, Bytes,
  ℕ, ◌==◌,
}

-- The sentinels that the program compares with, its own and the standard library's.
pub data Sentinel : Type 0 where
  deadline_exceeded canceled no_rows : Sentinel
  not_inserted unknown_value unreadable_round invalid_failure_code off_chain stopped : Sentinel
  default_partition keep_inside_horizon clock_ahead week_returned : Sentinel
  pending_detach_elsewhere : Sentinel

-- The two fields of `pgconn.PgError` that the program reads.
pub record PgError : Type 0 where
  pub code : Bytes
  pub constraint_name : Bytes

-- One link of an unwrapped chain: a sentinel, a server error, a `net.Error`, a `ConnectError`, or
-- an error that the program never asks about.
pub data Cause : Type 0 where
  sentinel : Sentinel → Cause
  pg : PgError → Cause
  net : Cause
  connect : Cause
  opaque : Cause

pub record GoError : Type 0 where
  pub text : Bytes
  pub chain : List Cause

-- The place of a sentinel in the list above, by which two are compared.
abbrev tag : Sentinel → ℕ
tag deadline_exceeded = 0
tag canceled = 1
tag no_rows = 2
tag not_inserted = 3
tag unknown_value = 4
tag unreadable_round = 5
tag invalid_failure_code = 6
tag off_chain = 7
tag stopped = 8
tag default_partition = 9
tag keep_inside_horizon = 10
tag clock_ahead = 11
tag week_returned = 12
tag pending_detach_elsewhere = 13

abbrev is_sentinel : Sentinel → Cause → Bool
is_sentinel s (sentinel t) = tag s == tag t
is_sentinel s _ = false

unfoldable pub is_in : Sentinel → List Cause → Bool
is_in s [] = false
is_in s (c ∷ cs) = is_sentinel s c || is_in s cs

-- `errors.Is(err, target)`.
abbrev pub errors_is : GoError → Sentinel → Bool
errors_is e s = is_in s e.chain

unfoldable pub find_pg : List Cause → Option PgError
find_pg [] = none
find_pg (pg p ∷ cs) = some p
find_pg (_ ∷ cs) = find_pg cs

unfoldable pub has_net : List Cause → Bool
has_net [] = false
has_net (net ∷ cs) = true
has_net (_ ∷ cs) = has_net cs

unfoldable pub has_connect : List Cause → Bool
has_connect [] = false
has_connect (connect ∷ cs) = true
has_connect (_ ∷ cs) = has_connect cs

-- `errors.New(text)` kept in a package variable.
abbrev pub of_sentinel : Sentinel → Bytes → GoError
of_sentinel s t = record { text = t; chain = sentinel s ∷ [] }

-- `errors.New(text)`, or `fmt.Errorf` with no `%w`.
abbrev pub plain : Bytes → GoError
plain t = record { text = t; chain = opaque ∷ [] }

-- `fmt.Errorf("<before>%w<after>", err)`: the text around, and the chain kept.
abbrev pub wrap : Bytes → GoError → Bytes → GoError
wrap before e after = record { text = before ++ (e.text ++ after); chain = opaque ∷ e.chain }

errors_is-of_sentinel : (s : Sentinel) (t : Bytes) → errors_is (of_sentinel s t) s ≡ true
unfolding is_in
errors_is-of_sentinel deadline_exceeded t = refl
errors_is-of_sentinel canceled t = refl
errors_is-of_sentinel no_rows t = refl
errors_is-of_sentinel not_inserted t = refl
errors_is-of_sentinel unknown_value t = refl
errors_is-of_sentinel unreadable_round t = refl
errors_is-of_sentinel invalid_failure_code t = refl
errors_is-of_sentinel off_chain t = refl
errors_is-of_sentinel stopped t = refl
errors_is-of_sentinel default_partition t = refl
errors_is-of_sentinel keep_inside_horizon t = refl
errors_is-of_sentinel clock_ahead t = refl
errors_is-of_sentinel week_returned t = refl
errors_is-of_sentinel pending_detach_elsewhere t = refl

-- Wrapping hides nothing from `errors.Is`.
errors_is-wrap :
    (s : Sentinel) (b a : Bytes) (e : GoError) → errors_is (wrap b e a) s ≡ errors_is e s
unfolding is_in
errors_is-wrap s b a e = refl

-- What a Go function with results `(A, error)` returns.
pub data Result {ℓ} (A : Type ℓ) : Type ℓ where
  ok : A → Result A
  err : GoError → Result A

infixl 5 ◌>>=◌
abbrev pub ◌>>=◌ {ℓ κ} : {A : Type ℓ} {B : Type κ} → Result A → (A → Result B) → Result B
ok a >>= f = f a
err e >>= f = err e

pub Result-cases {ℓ} :
    {A : Type ℓ} (r : Result A) → ((a : A) × (r ≡ ok a)) ⊎ ((e : GoError) × (r ≡ err e))
Result-cases (ok a) = inl (a, refl)
Result-cases (err e) = inr (e, refl)

-- A step that succeeded, handing what it found to the rest of a proof.
pub bind-ok {ℓ κ μ} :
    {A : Type ℓ} {B : Type κ} {P : Type μ} (m : Result A) (f : A → Result B) {b : B}
    → (m >>= f) ≡ ok b
    → ((a : A) → m ≡ ok a → f a ≡ ok b → P)
    → P
bind-ok (ok a) f h k = k a refl h
bind-ok (err e) f h k = cc

-- `fmt.Errorf("<label>%w", err)` on the error of a step.
abbrev pub labelled {ℓ} : {A : Type ℓ} → Bytes → Result A → Result A
labelled t (ok a) = ok a
labelled t (err e) = err (wrap t e [])

pub labelled-eq-err :
    {A : Type 0} (t : Bytes) (a : Result A) (e : GoError)
    → labelled t a ≡ err e
    → (x : GoError) × (a ≡ err x)
labelled-eq-err t (ok a) e h = cc
labelled-eq-err t (err x) e h = (x, refl)

pub labelled-eq-ok :
    {A : Type 0} (t : Bytes) (a : Result A) (x : A) → labelled t a ≡ ok x → a ≡ ok x
labelled-eq-ok t (ok a) x h = h
labelled-eq-ok t (err e) x h = cc
