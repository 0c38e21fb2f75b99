-- ===== src/Calendar/Years.antt =====
-- The year of a day, against the days before each year.
use nine_core.Common.{ℕ, ◌+◌, ◌-◌, ◌*◌, ◌/◌, ◌%◌, ◌≤◌, ◌<◌, ◌≡◌, ◌⊎◌, inl, inr, arith}
use nine_core.Calendar.{days_before_year, year_of, at_most_3}

at_most_3_lem :
    (n : ℕ) → (at_most_3 n ≤ 3) × (at_most_3 n ≤ n) × ((at_most_3 n ≡ n) ⊎ (at_most_3 n ≡ 3))
at_most_3_lem n = ground arith

-- The days before a year, by its cycles.
days_before_year-cycles :
    (a b c e : ℕ)
    → b ≤ 3
    → c ≤ 24
    → e ≤ 3
    → days_before_year (a * 400 + b * 100 + c * 4 + e + 1)
      ≡ a * 146097 + b * 36524 + c * 1461 + e * 365
unfolding days_before_year
days_before_year-cycles a b c e hb hc he = omega arith

-- The year that begins behind the last cycle is a year of 366 days where the rule says so.
days_before_year-next :
    (a b c e : ℕ)
    → b ≤ 3
    → c ≤ 24
    → e ≤ 3
    → (days_before_year (a * 400 + b * 100 + c * 4 + e + 1 + 1)
        ≡ a * 146097 + b * 36524 + c * 1461 + e * 365 + 366)
      ⊎ ((days_before_year (a * 400 + b * 100 + c * 4 + e + 1 + 1)
            ≡ a * 146097 + b * 36524 + c * 1461 + e * 365 + 365)
          × ((e < 3) ⊎ ((c ≡ 24) × (b < 3))))
unfolding days_before_year
days_before_year-next a b c e hb hc he = ground arith

-- A day lies in its year.
pub year_of_lem :
    (n : ℕ) → (days_before_year (year_of n) ≤ n) × (n < days_before_year (year_of n + 1))
unfolding year_of
year_of_lem n =
    let r = n % 146097 in
    let b = at_most_3 (r / 36524) in
    let rest = r - b * 36524 in
    let c = rest / 1461 in
    let e = at_most_3 (rest % 1461 / 365) in
    let (b3, b_le, b_is) = at_most_3_lem (r / 36524) in
    let (e3, e_le, e_is) = at_most_3_lem (rest % 1461 / 365) in
    let short : rest < 36525 = omega arith in
    let c24 : c ≤ 24 = omega arith in
    let here = days_before_year-cycles (n / 146097) b c e b3 c24 e3 in
    let after = days_before_year-next (n / 146097) b c e b3 c24 e3 in
    (
      omega arith,
      elim after [
        | inl full ↦ omega arith
        | inr (short_year, inl early) ↦ omega arith
        | inr (short_year, inr (last, early)) ↦ omega arith
      ],
    )

-- A year has 365 or 366 days, and the days before a year grow with it.
pub days_before_year_bounds :
    (y : ℕ)
    → 1 ≤ y
    → (days_before_year (y + 1) ≤ days_before_year y + 366) × ((y - 1) * 365 ≤ days_before_year y)
unfolding days_before_year
days_before_year_bounds y h = (omega arith, omega arith)

pub year_of_pos : (n : ℕ) → 1 ≤ year_of n
unfolding year_of
year_of_pos n = omega arith
