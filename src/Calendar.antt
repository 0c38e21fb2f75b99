-- ===== src/Calendar.antt =====
-- The standard library's calendar (`time`), as the partition weeks use it: days, week days, and
-- the ISO week of a day. A time counts nanoseconds from the zero time of Go, the first Monday.
pub mod Years
use nine_core.Common.{ℕ, ◌+◌, ◌-◌, ◌*◌, ◌/◌, ◌%◌, ◌^◌, ltb, if◌then◌else◌}

abbrev pub day : ℕ
day = 24 * 60 * 60 * 10 ^ 9

-- `Weekday` of a time, where Sunday is 0.
abbrev pub weekday : ℕ → ℕ
weekday t = (t / day + 1) % 7

-- The days before the first of January of a year, from that of year 1.
unfoldable pub days_before_year : ℕ → ℕ
days_before_year y = let p = y - 1 in p * 365 + p / 4 - p / 100 + p / 400

abbrev pub at_most_3 : ℕ → ℕ
at_most_3 n = if ltb 3 n then 3 else n

-- The year of a day, by cycles of 400, 100, 4 and 1 years.
unfoldable pub year_of : ℕ → ℕ
year_of n =
    let r = n % 146097 in
    let c = at_most_3 (r / 36524) in
    let q = (r - c * 36524) / 1461 in
    let y = at_most_3 ((r - c * 36524) % 1461 / 365) in n / 146097 * 400 + c * 100 + q * 4 + y + 1

-- `ISOWeek` of a time: the year of the Thursday of its week, and that Thursday's week in the year.
unfoldable pub iso_thursday : ℕ → ℕ
iso_thursday t = t / day + 3 - (weekday t + 6) % 7

unfoldable pub iso_year : ℕ → ℕ
iso_year t = year_of (iso_thursday t)

unfoldable pub iso_week : ℕ → ℕ
iso_week t = (iso_thursday t - days_before_year (iso_year t)) / 7 + 1
