-- ===== src/Strconv.antt =====
-- The standard library's decimal conversions, `strconv.Itoa` and `strconv.Atoi`, as the retry
-- package uses them on 64-bit `int` values.
pub mod RoundTrip
use nine_core.Common.{
  ℕ, zero, suc, ◌+◌, ◌-◌, ◌*◌, ◌/◌, ◌%◌, List, [], ◌∷◌, Option, none, some, Bytes, ltb, leb, ◌==◌,
  ◌||◌, if◌then◌else◌, ℤ, pos, negsuc, neg_ℕ, int_limit, ◌≡◌, refl, codes, incr,
}

-- The decimal digits of a positive number in front of `out`; one round of fuel for each digit.
unfoldable pub digits : ℕ → ℕ → Bytes → Bytes
digits zero n out = out
digits (suc f) n out =
    let rest = digits f (n / 10) ((b'0' + n % 10) ∷ out) in if n == 0 then out else rest

-- The digits of a number below 10 ^ 20, which every `int` is: `0` for zero.
unfoldable pub decimal : ℕ → Bytes
decimal n = if n == 0 then b'0' ∷ [] else digits 20 n []

unfoldable pub itoa : ℤ → Bytes
unfolding decimal
itoa (pos n) = decimal n
itoa (negsuc n) = b'-' ∷ decimal (suc n)

-- The value of a text of digits after the digits worth `n`.
unfoldable pub scan : Bytes → ℕ → Option ℕ
scan [] n = some n
scan (c ∷ s) n =
    let rest = scan s (n * 10 + (c - b'0')) in if ltb c b'0' || ltb b'9' c then none else rest

unfoldable pub unsigned : Bytes → Option ℕ
unfolding scan
unsigned [] = none
unsigned (c ∷ s) = scan (c ∷ s) 0

-- The range check: a value outside `int` is an error.
abbrev pub in_range : Option ℕ → Option ℤ
in_range none = none
in_range (some n) = if ltb n int_limit then some (pos n) else none

abbrev in_negative_range : Option ℕ → Option ℤ
in_negative_range none = none
in_negative_range (some n) = if leb n int_limit then some (neg_ℕ n) else none

-- `strconv.Atoi`: `none` is its error.
unfoldable pub atoi : Bytes → Option ℤ
unfolding unsigned
atoi [] = none
atoi (c ∷ s) =
    if c == b'-'
    then in_negative_range (unsigned s)
    else if c == b'+'
    then in_range (unsigned s)
    else in_range (unsigned (c ∷ s))

itoa_runs : itoa (negsuc 119) ≡ codes "-120"
unfolding itoa digits
itoa_runs = refl

atoi_runs : atoi (codes "+17") ≡ some (pos 17)
unfolding atoi
atoi_runs = refl

atoi_refuses : atoi (codes "9223372036854775808") ≡ none
unfolding atoi
atoi_refuses = refl
