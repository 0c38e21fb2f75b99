-- ===== src/Store/Partition/Tests.antt =====
-- A database that keeps the names of its tables, and the horizon on it.
use nine_core.Common.{
  ℕ, ◌+◌, ◌*◌, ◌<◌, ◌≤◌, List, [], ◌∷◌, none, Bool, true, false, ◌||◌, Bytes, codes, bytes_eq,
  bytes_eq_refl, ◌≡◌, refl, arith, pos, inl,
}
use nine_core.Errors.{GoError, Result, ok, err, of_sentinel, no_rows, plain, is_in}
use nine_core.Calendar.{day, days_before_year, year_of, iso_thursday, iso_year, iso_week}
use nine_core.Strconv.{itoa, digits}
use nine_core.Store.Session.{
  Statement, Answer, connect, set_timeout, try_lock, unlock, read_clock, find_default,
  find_unfinished, list_partitions, find_pending, open_record, detach, count, fill_record,
  drop_table, stamp, lock, list_bounds, exists_table, create_table, Database, Session, refusal,
  ◌>>=◌,
}
use nine_core.Store.Catalogue.{View, Same, Effect, Catalogue}
use nine_core.Store.Partition.{
  PartitionSpan, week, week_start, partition_name, first_week, rounds, ensure_partitions,
  make_weeks, make_week, attempt,
}
use nine_core.Store.Partition.Names.{end_of_time, partition_name_inj}
use nine_core.Store.Partition.Horizon.{horizon, missing, with_all}
use nine_core.Store.Partition.Bounds.{IsMade}
use nine_core.Store.Partition.Refines.{tables, ensure_refines}
use nine_core.Store.Partition.Covers.{ensure_covers, ensure_again}

abbrev nothing_found : GoError
nothing_found = of_sentinel no_rows (codes "no rows in result set")

abbrev not_here : GoError
not_here = plain (codes "not here")

abbrev reply : (q : Statement) → (Bytes → Bool) → Result (Answer q) × (Bytes → Bool)
reply connect s = (ok tt, s)
reply set_timeout s = (ok tt, s)
reply try_lock s = (ok true, s)
reply unlock s = (ok tt, s)
reply read_clock s = (err not_here, s)
reply find_default s = (err nothing_found, s)
reply find_unfinished s = (err not_here, s)
reply list_partitions s = (err not_here, s)
reply find_pending s = (err nothing_found, s)
reply (open_record n f t) s = (err not_here, s)
reply (detach n p) s = (err not_here, s)
reply (count n) s = (err not_here, s)
reply (fill_record i n t) s = (err not_here, s)
reply (drop_table n) s = (err not_here, s)
reply (stamp i t) s = (err not_here, s)
reply lock s = (ok tt, s)
reply list_bounds s = (ok [], s)
reply (exists_table n) s = (ok (s n), s)
reply (create_table n f t) s = (ok tt, λ m. bytes_eq m n || s m)

abbrev pub memory : Database
memory = record { State = Bytes → Bool; answer = reply }

abbrev seen : (Bytes → Bool) → View
seen s = record { exists = s; inherited = s; is_open = λ n. false; owner = λ i. none }

unchanged : (s : Bytes → Bool) → Same (seen s) (seen s)
unchanged s = (λ i n h. h, λ n. (refl, refl, refl))

pub law : (q : Statement) (s : Bytes → Bool) → Effect q (reply q s).0 (seen s) (seen (reply q s).1)
law connect s = unchanged s
law set_timeout s = unchanged s
law try_lock s = unchanged s
law unlock s = unchanged s
law read_clock s = unchanged s
law find_default s = unchanged s
law find_unfinished s = (unchanged s, tt)
law list_partitions s = unchanged s
law find_pending s = unchanged s
law (open_record n f t) s = ((λ i m h. h, λ m e. (refl, refl, refl)), inl (refl, refl, refl))
law (detach n p) s = ((λ i m h. h, λ m e. (refl, refl, refl)), inl (refl, refl, refl))
law (count n) s = unchanged s
law (fill_record i n t) s = unchanged s
law (drop_table n) s = ((λ i m h. h, λ m e. (refl, refl, refl)), inl (refl, refl, refl))
law (stamp i t) s = (λ j m h. h, λ m. (refl, refl, inl refl), tt)
law lock s = unchanged s
law list_bounds s = unchanged s
law (exists_table n) s = (unchanged s, refl)
law (create_table n f t) s = (
  (λ i m h. h, λ m e. (rw e refl, rw e refl, refl)),
  (rw (bytes_eq_refl n) refl, rw (bytes_eq_refl n) refl, refl),
)

abbrev pub catalogue : Catalogue memory
catalogue = record { view = seen; effect = law }

-- Wednesday, the sixteenth of February 2028, with one week that is there already.
abbrev pub now : ℕ
now = (740346 + 46) * day

abbrev pub start : Session (Bytes → Bool)
start = record { trace = []; state = λ n. bytes_eq n (codes "events_w2028_08") }

abbrev pub span : PartitionSpan
span = record { ahead = pos 2; behind = pos 1 }

abbrev three_weeks : List Bytes
three_weeks = codes "events_w2028_06" ∷ codes "events_w2028_07" ∷ codes "events_w2028_09" ∷ []

pub ensure_runs : (ensure_partitions memory now span start).0 ≡ (three_weeks, none)
unfolding ensure_partitions make_weeks make_week attempt refusal is_in bytes_eq partition_name itoa
    iso_year iso_week iso_thursday year_of days_before_year digits week_start ◌>>=◌
ensure_runs = refl

abbrev after : Session (Bytes → Bool)
after = (ensure_partitions memory now span start).1

pub far : first_week now span + rounds span * week < end_of_time
unfolding week_start
far = omega arith

ensure_refines_example :
    (three_weeks ≡ missing (tables memory catalogue start) (horizon now span))
    × ((m : Bytes)
        → tables memory catalogue after m
          ≡ with_all (tables memory catalogue start) (horizon now span) m)
ensure_refines_example = ensure_refines memory catalogue now span start three_weeks far ensure_runs

-- Two weeks ahead.
abbrev later : ℕ
later = now + 2 * week

ensure_covers_example :
    (tables memory catalogue after (partition_name (week_start later)) ≡ true)
    × (week_start later ≤ later)
    × (later < week_start later + week)
    × IsMade memory catalogue (week_start later) start after
ensure_covers_example =
    ensure_covers memory catalogue now span start three_weeks far ensure_runs later (omega arith)
      (omega arith)

ensure_runs_again : (ensure_partitions memory now span after).0 ≡ ([], none)
unfolding ensure_partitions make_weeks make_week attempt refusal is_in bytes_eq partition_name itoa
    iso_year iso_week iso_thursday year_of days_before_year digits week_start ◌>>=◌
ensure_runs_again = refl

ensure_again_example : ◌≡◌ {A = List Bytes} [] []
ensure_again_example =
    ensure_again memory catalogue now span start three_weeks far ensure_runs [] ensure_runs_again

partition_name_inj_example : ◌≡◌ {A = ℕ} (2 * week) (2 * week)
partition_name_inj_example =
    partition_name_inj (2 * week) (2 * week) (omega arith) (omega arith) (omega arith) (omega arith)
      refl
