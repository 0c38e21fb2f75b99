-- ===== src/Pipeline.antt =====
-- internal/pipeline: the consumer's answer to one message (outcome.go) and its name
-- (outcome_string.go). An `Outcome` is a Go `int`; `other` is a value that no constant names.
pub mod Name
mod Tests
use nine_core.Common.{
  ℕ, zero, suc, ◌+◌, ◌/◌, ◌%◌, ◌-◌, [], ◌∷◌, ◌++◌, Option, none, some, Bytes, codes, ◌==◌,
  if◌then◌else◌, ltb, ℤ, pos, negsuc, int_limit, ◌≡◌, refl, ◌>>=◌,
}
use mathlib.Core.Option

pub data Outcome : Type 0 where
  unknown done retry poison fatal : Outcome
  other : ℤ → Outcome

-- The `int` of a value, by the order of the constants.
abbrev pub value : Outcome → ℤ
value unknown = pos 0
value done = pos 1
value retry = pos 2
value poison = pos 3
value fatal = pos 4
value (other n) = n

-- The value of an `int`: the constant, where one has it.
abbrev of_int : ℤ → Outcome
of_int (negsuc n) = other (negsuc n)
of_int (pos zero) = unknown
of_int (pos (suc zero)) = done
of_int (pos (suc (suc zero))) = retry
of_int (pos (suc (suc (suc zero)))) = poison
of_int (pos (suc (suc (suc (suc zero))))) = fatal
of_int (pos (suc (suc (suc (suc (suc n)))))) = other (pos (suc (suc (suc (suc (suc n))))))

-- The loop of `itoa`: `i` bytes are free in front of `out`, and `b[-1]` is a panic, `none`.
pub fill : ℕ → ℕ → Bytes → Option (ℕ × Bytes)
fill zero n out = if n == 0 then some (0, out) else none
fill (suc i) n out =
    let rest = fill i (n / 10) ((b'0' + n % 10) ∷ out) in if n == 0 then some (suc i, out) else rest

-- The sign in front, which takes one more free byte.
sign : ℕ × Bytes → Option Bytes
sign (zero, out) = none
sign (suc i, out) = some (b'-' ∷ out)

-- `-n` of the smallest `int` is that `int` again, so its loop makes no round.
abbrev pub magnitude : ℕ → ℕ
magnitude n = if n == int_limit then 0 else n

pub itoa : ℤ → Option Bytes
unfolding fill sign
itoa (pos zero) = some (b'0' ∷ [])
itoa (pos (suc n)) = Option.map (λ p. p.1) (fill 20 (suc n) [])
itoa (negsuc n) = fill 20 (magnitude (suc n)) [] >>= sign

parenthesised : Bytes → Bytes
parenthesised s = codes "Outcome(" ++ (s ++ codes ")")

-- `String()`; `none` is a panic.
pub outcome_string : Outcome → Option Bytes
unfolding itoa parenthesised
outcome_string unknown = some (codes "Unknown")
outcome_string done = some (codes "Done")
outcome_string retry = some (codes "Retry")
outcome_string poison = some (codes "Poison")
outcome_string fatal = some (codes "Fatal")
outcome_string (other n) = Option.map parenthesised (itoa n)

outcome_string_runs : outcome_string (of_int (negsuc 41)) ≡ some (codes "Outcome(-42)")
unfolding outcome_string
outcome_string_runs = refl

smallest_int : itoa (negsuc (int_limit - 1)) ≡ some (codes "-")
unfolding itoa
smallest_int = refl
