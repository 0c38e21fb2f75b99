-- ===== src/Store/Retention/Tests.antt =====
-- A database with one week, whose drop was interrupted behind the detach.
use nine_core.Common.{
  ℕ, ◌*◌, ◌-◌, List, Option, Occurs, [], ◌∷◌, none, some, Bool, true, false, not, ◌&&◌, Bool-cases,
  Bytes, codes, bytes_eq, bytes_eq→eq, ◌==◌, if◌then◌else◌, ◌≡◌, refl, sym, subst, pos, inl, inr,
}
use nine_core.Errors.{GoError, Result, ok, err, of_sentinel, no_rows, plain, is_in}
use nine_core.Store.Session.{
  Statement, Answer, connect, set_timeout, try_lock, unlock, read_clock, find_default,
  find_unfinished, list_partitions, find_pending, open_record, detach, count, fill_record,
  drop_table, stamp, lock, list_bounds, exists_table, create_table, Unfinished, Row, Database,
  Session, ◌>>=◌, asked, refusal,
}
use nine_core.Store.Catalogue.{View, Same, Only, Finds, Stamped, Closed, Effect, Catalogue}
use nine_core.Store.Partition.{PartitionSpan, week}
use nine_core.Store.Retention.{
  past_rows, parse_bounds, captures, parse_bound, after, quoted, insert_by_from,
}
use nine_core.Store.Retention.Run.{
  Report, resume_unfinished, resume_all, locked_run, drop_past, drop_all, drop_one, retain, attempt,
}
use nine_core.Store.Retention.Run.Tracked.{IsTracked}
use nine_core.Store.Retention.Run.Finished.{IsSwept, retain-IsSwept}
use nine_core.Store.Retention.Run.Sight.{retain-IsTracked}

abbrev old : Bytes
old = codes "events_w2026_30"

-- Whether its table exists, is a partition, and has an open record, number 7.
record Shelf : Type 0 where
  there : Bool
  inherited : Bool
  noted : Bool

abbrev nothing_found : GoError
nothing_found = of_sentinel no_rows (codes "no rows in result set")

abbrev not_here : GoError
not_here = plain (codes "not here")

abbrev left_over : Shelf → Unfinished
left_over s = record {
  id = 7;
  name = old;
  from = 0;
  to = week;
  rows = none;
  counted = false;
  on_disk = s.there;
}

abbrev listed : Row
listed = record { name = old; bounds = codes "FOR VALUES FROM ('A') TO ('B')"; pending = false }

-- The weeks of a bound that is one letter.
abbrev weeks_of : Bytes → Bytes → Option ℕ
weeks_of layout [] = none
weeks_of layout (c ∷ s) = some (c * week)

abbrev if_old {ℓ} : {A : Type ℓ} → Bytes → A → Shelf → Shelf → Result A × Shelf
if_old n a s' s = if bytes_eq n old then (ok a, s') else (err not_here, s)

abbrev reply : (q : Statement) → Shelf → Result (Answer q) × Shelf
reply connect s = (ok tt, s)
reply set_timeout s = (ok tt, s)
reply try_lock s = (ok true, s)
reply unlock s = (ok tt, s)
reply read_clock s = (ok (100 * week), s)
reply find_default s = (err nothing_found, s)
reply find_unfinished s = (ok (if s.noted && not s.inherited then left_over s ∷ [] else []), s)
reply list_partitions s = (ok (if s.inherited then listed ∷ [] else []), s)
reply find_pending s = (err nothing_found, s)
reply (open_record n f t) s = if_old n 7 (record s { noted = true }) s
reply (detach n p) s = if_old n tt (record s { inherited = false }) s
reply (count n) s = (ok 6, s)
reply (fill_record i n t) s = (ok tt, s)
reply (drop_table n) s = if_old n tt (record s { there = false; inherited = false }) s
reply (stamp i t) s = if i == 7 then (ok tt, record s { noted = false }) else (err not_here, s)
reply lock s = (ok tt, s)
reply list_bounds s = (ok [], s)
reply (exists_table n) s = (ok (bytes_eq n old && s.there), s)
reply (create_table n f t) s = if_old n tt (record s { there = true; inherited = true }) s

abbrev shelf : Database
shelf = record { State = Shelf; answer = reply }

abbrev seen : Shelf → View
seen s = record {
  exists = λ n. bytes_eq n old && s.there;
  inherited = λ n. bytes_eq n old && s.inherited;
  is_open = λ n. bytes_eq n old && s.noted;
  owner = λ i. if i == 7 then some old else none;
}

unchanged : (s : Shelf) → Same (seen s) (seen s)
unchanged s = (λ i n h. h, λ n. (refl, refl, refl))

-- A statement about a name is one about the week, or changes nothing.
by_name :
    (P : Bytes → Type 0) → P old → ((n : Bytes) → bytes_eq n old ≡ false → P n) → (n : Bytes) → P n
by_name P at other n = elim (Bool-cases (bytes_eq n old)) [
  | inl e ↦ subst P (sym (bytes_eq→eq n old e)) at
  | inr e ↦ other n e
]

others_stay : (s s' : Shelf) → Only old (seen s) (seen s')
others_stay s s' = (λ i n h. h, λ m e. (rw e refl, rw e refl, rw e refl))

abbrev on_shelf : Bool → Bool → Bool → Shelf
on_shelf a b c = record { there = a; inherited = b; noted = c }

is_old : (n : Bytes) (b : Bool) → bytes_eq n old && b ≡ true → n ≡ old
is_old n b h = elim (Bool-cases (bytes_eq n old)) [
  | inl e ↦ bytes_eq→eq n old e
  | inr e ↦ cc (rw e at h)
]

and_no : (b : Bool) → b && false ≡ false
and_no true = refl
and_no false = refl

found : (a b c : Bool) → Finds (reply find_unfinished (on_shelf a b c)).0 (seen (on_shelf a b c))
unfolding bytes_eq
found a b false = (tt, λ n o j. cc (and_no (bytes_eq n old)))
found a true true = (tt, λ n o j. cc)
found a false true = (((refl, refl, refl), tt), λ n o j. inl (is_old n true o))

stamped :
    (i t : ℕ) (s : Shelf)
    → Stamped i (reply (stamp i t) s).0 (seen s) (seen (reply (stamp i t) s).1)
      × Closed i (reply (stamp i t) s).0 (seen s) (seen (reply (stamp i t) s).1)
stamped i t s = elim (Bool-cases (i == 7)) [
  | inl e ↦ rw e (
    λ n. (
      refl,
      refl,
      elim (Bool-cases (bytes_eq n old)) [
        | inl m ↦ inr (rw (bytes_eq→eq n old m) refl, and_no (bytes_eq n old))
        | inr m ↦ inl (rw m refl)
      ],
    ),
    λ n h. and_no (bytes_eq n old),
  )
  | inr e ↦ rw e (λ n. (refl, refl, inl refl), tt)
]

abbrev Law : Statement → Shelf → Type 0
Law q s = Effect q (reply q s).0 (seen s) (seen (reply q s).1)

law : (q : Statement) (s : Shelf) → Law q s
unfolding bytes_eq
law connect s = unchanged s
law set_timeout s = unchanged s
law try_lock s = unchanged s
law unlock s = unchanged s
law read_clock s = unchanged s
law find_default s = unchanged s
law find_unfinished s = (unchanged s, found s.there s.inherited s.noted)
law list_partitions s = unchanged s
law find_pending s = unchanged s
law (open_record n f t) s =
    by_name (λ m. Law (open_record m f t) s)
      (others_stay s (record s { noted = true }), ((refl, refl, refl), refl))
      (λ m e. rw e (((λ i k h. h, λ k x. (refl, refl, refl)), inl (refl, refl, refl)))) n
law (detach n p) s =
    by_name (λ m. Law (detach m p) s)
      (others_stay s (record s { inherited = false }), (refl, refl, refl))
      (λ m e. rw e (((λ i k h. h, λ k x. (refl, refl, refl)), inl (refl, refl, refl)))) n
law (count n) s = unchanged s
law (fill_record i n t) s = unchanged s
law (drop_table n) s =
    by_name (λ m. Law (drop_table m) s)
      (others_stay s (record s { there = false; inherited = false }), (refl, refl, refl))
      (λ m e. rw e (((λ i k h. h, λ k x. (refl, refl, refl)), inl (refl, refl, refl)))) n
law (stamp i t) s = (λ j m h. h, (stamped i t s).0, (stamped i t s).1)
law lock s = unchanged s
law list_bounds s = unchanged s
law (exists_table n) s = (unchanged s, refl)
law (create_table n f t) s =
    by_name (λ m. Law (create_table m f t) s)
      (others_stay s (record s { there = true; inherited = true }), (refl, refl, refl))
      (λ m e. rw e (((λ i k h. h, λ k x. (refl, refl, refl)), inl (refl, refl, refl)))) n

abbrev catalogue : Catalogue shelf
catalogue = record { view = seen; effect = law }

abbrev start : Session Shelf
start = record { trace = []; state = on_shelf true false true }

abbrev two_weeks : PartitionSpan
two_weeks = record { ahead = pos 4; behind = pos 2 }

retain-IsTracked_example :
    IsTracked old
      (seen (retain shelf (λ l b. none) (100 * week) (pos (5 * week)) two_weeks start).1.state)
unfolding bytes_eq
retain-IsTracked_example =
    retain-IsTracked shelf catalogue old (λ l b. none) (100 * week) (pos (5 * week)) two_weeks start
      (λ x. inr refl)

-- The week is a partition that is past.
abbrev fresh : Session Shelf
fresh = record { trace = []; state = on_shelf true true false }

abbrev swept : Report × Session Shelf
swept = retain shelf weeks_of (100 * week) (pos (5 * week)) two_weeks fresh

retain-IsSwept_example :
    (rows : List Row) × Occurs (asked list_partitions (ok rows)) swept.1.trace
    × IsSwept shelf catalogue weeks_of
        (100 * week - 5 * week)
        rows
        (seen fresh.state)
        (seen swept.1.state)
unfolding retain locked_run drop_past past_rows parse_bounds captures parse_bound after quoted
    bytes_eq insert_by_from drop_all drop_one attempt resume_unfinished resume_all refusal is_in
    ◌>>=◌
retain-IsSwept_example =
    retain-IsSwept shelf catalogue weeks_of (100 * week) (pos (5 * week)) two_weeks fresh refl

is_emptied : swept.1.state ≡ on_shelf false false false
unfolding retain locked_run drop_past past_rows parse_bounds captures parse_bound after quoted
    bytes_eq insert_by_from drop_all drop_one attempt resume_unfinished resume_all refusal is_in
    ◌>>=◌
is_emptied = refl
