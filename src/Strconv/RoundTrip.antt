-- ===== src/Strconv/RoundTrip.antt =====
-- Reading a printed number gives it back.
use nine_core.Common.{
  ℕ, zero, suc, ◌+◌, ◌*◌, ◌/◌, ◌%◌, ◌^◌, ◌<◌, ◌≤◌, ◌≢◌, [], ◌∷◌, some, Bytes, ◌==◌, ℤ, pos, negsuc,
  int_limit, ◌≡◌, refl, arith, Bool-cases, inl, inr, ◌∙◌,
}
use native.Mathlib.Nat.{pow-suc}
use nine_core.Strconv.{digits, decimal, itoa, scan, unsigned, atoi, in_range}

-- One more digit.
scan_digit : (n : ℕ) (out : Bytes) → scan ((b'0' + n % 10) ∷ out) (n / 10) ≡ scan out n
unfolding scan
scan_digit n out = ground arith

lt_pow_suc : (f n : ℕ) → n < 10 ^ suc f → n / 10 < 10 ^ f
lt_pow_suc f n h = let k : n < 10 ^ f * 10 = rw (pow-suc 10 f) at h in omega arith

scan-digits : (f n : ℕ) (out : Bytes) → n < 10 ^ f → scan (digits f n out) 0 ≡ scan out n
unfolding digits
scan-digits zero n out h = let z : n ≡ 0 = omega arith in rw z
scan-digits (suc f) n out h =
    ground
      (arith, scan-digits f (n / 10) ((b'0' + n % 10) ∷ out) (lt_pow_suc f n h), scan_digit n out)

-- A printed number starts with a digit.
abbrev DigitFirst : Bytes → Type 0
DigitFirst [] = ⊥
DigitFirst (c ∷ s) = (b'0' ≤ c) × (c ≤ b'9')

digits-DigitFirst : (f n : ℕ) (out : Bytes) → DigitFirst out → DigitFirst (digits f n out)
unfolding digits
digits-DigitFirst zero n out h = h
digits-DigitFirst (suc f) n out h = elim (Bool-cases (n == 0)) [
  | inl e ↦ rw e h
  | inr e ↦ rw e (digits-DigitFirst f (n / 10) ((b'0' + n % 10) ∷ out) (omega arith))
]

digits-pos-DigitFirst : (f n : ℕ) → n ≢ 0 → DigitFirst (digits (suc f) n [])
unfolding digits
digits-pos-DigitFirst f n h =
    ground (arith, digits-DigitFirst f (n / 10) ((b'0' + n % 10) ∷ []) (omega arith))

decimal-DigitFirst : (n : ℕ) → DigitFirst (decimal n)
unfolding decimal
decimal-DigitFirst n = ground (arith, digits-pos-DigitFirst 19 n)

unsigned-scan : (s : Bytes) → DigitFirst s → unsigned s ≡ scan s 0
unfolding unsigned
unsigned-scan [] h = absurd h
unsigned-scan (c ∷ s) h = refl

scan-decimal : (n : ℕ) → n < 10 ^ 20 → scan (decimal n) 0 ≡ some n
unfolding decimal
scan-decimal n h = elim (Bool-cases (n == 0)) [
  | inl e ↦ unfold scan in ground arith
  | inr e ↦ rw e (scan-digits 20 n [] h ∙ unfold scan in refl)
]

unsigned-decimal : (n : ℕ) → n < 10 ^ 20 → unsigned (decimal n) ≡ some n
unsigned-decimal n h = rw (unsigned-scan _ (decimal-DigitFirst n)) (scan-decimal n h)

atoi-digits : (s : Bytes) → DigitFirst s → atoi s ≡ in_range (unsigned s)
unfolding atoi
atoi-digits [] h = absurd h
atoi-digits (c ∷ s) h = ground arith

-- The values of a 64-bit `int`.
abbrev IsInt : ℤ → Type 0
IsInt (pos n) = n < int_limit
IsInt (negsuc n) = n < int_limit

-- `Atoi` reads back what `Itoa` prints, for every 64-bit `int`.
pub atoi-itoa : (n : ℤ) → IsInt n → atoi (itoa n) ≡ some n
unfolding itoa
atoi-itoa (pos n) h =
    rw (atoi-digits _ (decimal-DigitFirst n), unsigned-decimal n (omega arith)) (ground arith)
atoi-itoa (negsuc n) h = unfold atoi in rw (unsigned-decimal (suc n) (omega arith)) (ground arith)
