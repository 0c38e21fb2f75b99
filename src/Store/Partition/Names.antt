-- ===== src/Store/Partition/Names.antt =====
-- internal/store/partition.go: the names of the weeks.
use nine_core.Common.{
  ℕ, zero, suc, ◌+◌, ◌-◌, ◌*◌, ◌/◌, ◌%◌, ◌^◌, ◌<◌, ◌≤◌, [], ◌∷◌, ◌++◌, Bytes, codes, ◌==◌,
  Bool-cases, ◌≡◌, refl, ap, arith, pos, int_limit, All, inl, inr,
}
use nine_core.Strconv.{digits, decimal, itoa}
use nine_core.Strconv.RoundTrip.{atoi-itoa}
use nine_core.Calendar.{day, days_before_year, year_of, iso_thursday, iso_year, iso_week}
use nine_core.Calendar.Years.{year_of_lem, year_of_pos, days_before_year_bounds}
use nine_core.Store.Partition.{week, partition_name, two_digits}

-- The fourteenth of February 2028, a Monday.
partition_name_2028 : partition_name ((days_before_year 2028 + 44) * day) ≡ codes "events_w2028_07"
unfolding partition_name itoa iso_year iso_week iso_thursday year_of days_before_year digits
partition_name_2028 = refl

-- The last days of 2024 are in the first week of 2025.
partition_name_2024 : partition_name ((days_before_year 2025 - 2) * day) ≡ codes "events_w2025_01"
unfolding partition_name itoa iso_year iso_week iso_thursday year_of days_before_year digits
partition_name_2024 = refl

abbrev IsDigits : Bytes → Type 0
IsDigits = All (λ (c : ℕ). c ≤ b'9')

digits-IsDigits : (f n : ℕ) (out : Bytes) → IsDigits out → IsDigits (digits f n out)
unfolding digits
digits-IsDigits zero n out h = h
digits-IsDigits (suc f) n out h = elim (Bool-cases (n == 0)) [
  | inl e ↦ rw e h
  | inr e ↦ rw e (digits-IsDigits f (n / 10) ((b'0' + n % 10) ∷ out) (omega arith, h))
]

itoa-IsDigits : (n : ℕ) → IsDigits (itoa (pos n))
unfolding itoa decimal
itoa-IsDigits n = elim (Bool-cases (n == 0)) [
  | inl e ↦ rw e (omega arith, tt)
  | inr e ↦ rw e (digits-IsDigits 20 n [] tt)
]

-- Two texts of digits, each in front of an underscore.
split_underscore :
    (s t u v : Bytes)
    → IsDigits s
    → IsDigits t
    → s ++ (b'_' ∷ u) ≡ t ++ (b'_' ∷ v)
    → (s ≡ t) × (u ≡ v)
split_underscore [] [] u v hs ht e = (refl, cc)
split_underscore [] (c ∷ t) u v hs ht e = let q : b'_' ≡ c = cc in absurd (omega arith)
split_underscore (c ∷ s) [] u v hs ht e = let q : c ≡ b'_' = cc in absurd (omega arith)
split_underscore (c ∷ s) (b ∷ t) u v hs ht e =
    let q : c ≡ b = cc in
    let rest : s ++ (b'_' ∷ u) ≡ t ++ (b'_' ∷ v) = cc in
    let (st, uv) = split_underscore s t u v hs.1 ht.1 rest in (cc, uv)

two_digits_inj : (m n : ℕ) → m < 100 → n < 100 → two_digits m ≡ two_digits n → m ≡ n
two_digits_inj m n hm hn e =
    let tens : b'0' + m / 10 % 10 ≡ b'0' + n / 10 % 10 = cc in
    let ones : b'0' + m % 10 ≡ b'0' + n % 10 = cc in omega arith

itoa_inj : (m n : ℕ) → m < int_limit → n < int_limit → itoa (pos m) ≡ itoa (pos n) → m ≡ n
itoa_inj m n hm hn e =
    let p = atoi-itoa (pos m) hm in
    let q = atoi-itoa (pos n) hn in let same : pos m ≡ pos n = cc in cc

-- A bound on the times of the calendar, in a far future.
abbrev pub end_of_time : ℕ
end_of_time = 2 ^ 62 * day

thursday_bound : (t : ℕ) → iso_thursday t ≤ t / day + 3
unfolding iso_thursday
thursday_bound t = omega arith

thursday_of_monday : (t : ℕ) → t % week ≡ 0 → iso_thursday t ≡ t / day + 3
unfolding iso_thursday
thursday_of_monday t h = omega arith

-- A Thursday in its year.
iso_thursday_bounds :
    (t : ℕ)
    → (days_before_year (iso_year t) ≤ iso_thursday t)
      × (iso_thursday t < days_before_year (iso_year t) + 366)
      × (t < end_of_time → iso_year t < int_limit)
unfolding iso_year
iso_thursday_bounds t =
    let n = iso_thursday t in
    let y = year_of n in
    let (lo, hi) = year_of_lem n in
    let (next, all) = days_before_year_bounds y (year_of_pos n) in
    let near : n ≤ t / day + 3 = thursday_bound t in (lo, omega arith, λ h. omega arith)

iso_week_bound : (t : ℕ) → iso_week t < 100
unfolding iso_week
iso_week_bound t = let (lo, hi, y) = iso_thursday_bounds t in omega arith

same_week :
    (s t : ℕ)
    → s % week ≡ 0
    → t % week ≡ 0
    → iso_year s ≡ iso_year t
    → iso_week s ≡ iso_week t
    → s ≡ t
unfolding iso_week
same_week s t hs ht year number =
    let before : days_before_year (iso_year s) ≡ days_before_year (iso_year t) =
      ap days_before_year year in
    let (sl, sh, sy) = iso_thursday_bounds s in
    let (tl, th, ty) = iso_thursday_bounds t in
    let a = thursday_of_monday s hs in let b = thursday_of_monday t ht in omega arith

-- Two different Mondays before the far end of the calendar give their weeks two different names.
pub partition_name_inj :
    (s t : ℕ)
    → s % week ≡ 0
    → t % week ≡ 0
    → s < end_of_time
    → t < end_of_time
    → partition_name s ≡ partition_name t
    → s ≡ t
unfolding partition_name
partition_name_inj s t hs ht ls lt e =
    let (sl, sh, sy) = iso_thursday_bounds s in
    let (tl, th, ty) = iso_thursday_bounds t in
    let whole : itoa (pos (iso_year s)) ++ (b'_' ∷ two_digits (iso_week s))
        ≡ itoa (pos (iso_year t)) ++ (b'_' ∷ two_digits (iso_week t)) =
      cc in
    let (years, weeks) =
      split_underscore _ _ _ _ (itoa-IsDigits (iso_year s)) (itoa-IsDigits (iso_year t)) whole in
    let year : iso_year s ≡ iso_year t = itoa_inj _ _ (sy ls) (ty lt) years in
    let number : iso_week s ≡ iso_week t =
      two_digits_inj _ _ (iso_week_bound s) (iso_week_bound t) weeks in
    same_week s t hs ht year number
