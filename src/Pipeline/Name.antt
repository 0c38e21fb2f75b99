-- ===== src/Pipeline/Name.antt =====
-- The names of outcomes: `itoa` stays in its buffer, and agrees with the standard conversion.
use nine_core.Common.{
  ℕ, zero, suc, ◌+◌, ◌/◌, ◌%◌, ◌*◌, ◌^◌, Bool-cases, false, inl, inr, sym, ap, ◌∙◌, ◌<◌, [], ◌∷◌,
  some, Bytes, ◌==◌, ℤ, pos, negsuc, int_limit, ◌≡◌, refl, arith,
}
use nine_core.Strconv.{digits, decimal}
use nine_core.Strconv
use native.Mathlib.Nat.{pow-suc}
use nine_core.Pipeline.{fill, itoa, magnitude}

lt_pow_suc : (f n : ℕ) → n < 10 ^ suc f → n / 10 < 10 ^ f
lt_pow_suc f n h = let k : n < 10 ^ f * 10 = rw (pow-suc 10 f) at h in omega arith

-- The loop fits in `i` bytes for a number of at most `i` digits, and writes its digits.
fill-digits :
    (i n : ℕ) (out : Bytes) → n < 10 ^ i → (j : ℕ) × (fill i n out ≡ some (j, digits i n out))
unfolding fill digits
fill-digits zero n out h = (0, ground arith)
fill-digits (suc i) n out h = elim (Bool-cases (n == 0)) [
  | inl e ↦ (suc i, rw e)
  | inr e ↦ rw e (fill-digits i (n / 10) ((b'0' + n % 10) ∷ out) (lt_pow_suc i n h))
]

digits_round :
    (f n : ℕ) (out : Bytes)
    → (n == 0) ≡ false
    → digits (suc f) n out ≡ digits f (n / 10) ((b'0' + n % 10) ∷ out)
unfolding digits
digits_round f n out e = rw e

fill_round :
    (i n : ℕ) (out : Bytes)
    → (n == 0) ≡ false
    → fill (suc i) n out ≡ fill i (n / 10) ((b'0' + n % 10) ∷ out)
unfolding fill
fill_round i n out e = rw e

-- A number of one digit less leaves a byte for the sign.
fill_spare :
    (i n : ℕ) (out : Bytes)
    → n < 10 ^ i
    → (j : ℕ) × (fill (suc i) n out ≡ some (suc j, digits (suc i) n out))
fill_spare zero n out h = let z : n ≡ 0 = omega arith in rw z (0, unfold fill digits in refl)
fill_spare (suc i) n out h = elim (Bool-cases (n == 0)) [
  | inl e ↦ (suc i, unfold fill digits in rw e)
  | inr e ↦
      let (j, p) = fill_spare i (n / 10) ((b'0' + n % 10) ∷ out) (lt_pow_suc i n h) in
      (
        j,
        fill_round (suc i) n out e
            ∙ p
            ∙ sym (ap (λ s. some (suc j, s)) (digits_round (suc i) n out e)),
      )
]

itoa-pos : (n : ℕ) → n < int_limit → itoa (pos n) ≡ some (Strconv.itoa (pos n))
unfolding itoa Strconv.itoa decimal
itoa-pos zero h = refl
itoa-pos (suc n) h = let (j, p) = fill-digits 20 (suc n) [] (omega arith) in rw p (ground arith)

itoa-negsuc : (n : ℕ) → suc n < int_limit → itoa (negsuc n) ≡ some (Strconv.itoa (negsuc n))
unfolding itoa Strconv.itoa decimal
itoa-negsuc n h =
    let e : magnitude (suc n) ≡ suc n = ground arith in
    let (j, p) = fill_spare 19 (suc n) [] (omega arith) in rw (e, p) (ground arith)

-- Every 64-bit `int` but the smallest: those whose negation does not wrap.
abbrev IsNegatable : ℤ → Type 0
IsNegatable (pos n) = n < int_limit
IsNegatable (negsuc n) = suc n < int_limit

-- On every `int` but the smallest, `itoa` never indexes before its buffer of 20 bytes, and it
-- writes what `strconv.Itoa` writes.
pub itoa_total : (n : ℤ) → IsNegatable n → itoa n ≡ some (Strconv.itoa n)
itoa_total (pos n) h = itoa-pos n h
itoa_total (negsuc n) h = itoa-negsuc n h
