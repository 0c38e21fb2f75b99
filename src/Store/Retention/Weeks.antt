-- ===== src/Store/Retention/Weeks.antt =====
-- internal/store/retention.go, partition.go: the floor of the promise against the weeks kept.
use nine_core.Common.{
  ℕ, ◌+◌, ◌-◌, ◌*◌, ◌%◌, ◌<◌, ◌≤◌, ltb, lt→ltb, false, ◌≡◌, refl, arith, natural, int_limit, pos,
}
use nine_core.Store.Partition.{PartitionSpan, with_defaults, week, week_start}
use nine_core.Store.Partition.Weeks.{week_start_lem}
use nine_core.Store.Retention.{floor, below, wrapped}

-- The end of the oldest week that the horizon keeps.
abbrev pub oldest_end : ℕ → PartitionSpan → ℕ
oldest_end now span = week_start now - natural (with_defaults span).behind * week + week

wrapped_lem : (n : ℕ) → n < int_limit → wrapped n ≡ pos n
wrapped_lem n h = let e : n % (2 * int_limit) ≡ n = omega arith in rw (e, lt→ltb n int_limit h) refl

ltb-eq-false : (a b : ℕ) → ltb a b ≡ false → b ≤ a
ltb-eq-false a b h = ground arith

pub boundary-lt-oldest_end :
    (now keep : ℕ) (span : PartitionSpan)
    → natural (with_defaults span).behind * week < int_limit
    → below keep (floor span) ≡ false
    → now - keep < oldest_end now span
boundary-lt-oldest_end now keep span h b =
    let k = natural (with_defaults span).behind * week in
    let le : k ≤ keep = ltb-eq-false keep k (rw (wrapped_lem k h) at b) in
    let starts = week_start_lem now in omega arith
