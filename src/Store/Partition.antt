-- ===== src/Store/Partition.antt =====
-- internal/store/partition.go: the weeks of the table and the statements that create them.
pub mod Weeks
pub mod Names
pub mod Horizon
pub mod Refines
pub mod Bounds
pub mod Covers
pub mod Tests
use nine_core.Common.{
  ℕ, zero, suc, ◌+◌, ◌-◌, ◌*◌, ◌/◌, ◌%◌, ◌^◌, List, [], ◌∷◌, ◌++◌, Option, none, some, Bool, true,
  false, Bytes, bytes_eq, codes, ◌==◌, ltb, if◌then◌else◌, ℤ, pos, natural,
}
use nine_core.Errors.{GoError, Result, ok, err}
use nine_core.Strconv.{itoa, decimal}
use nine_core.Calendar.{day, weekday, iso_year, iso_week}
use nine_core.Store.Session.{
  connect, lock, unlock, exists_table, create_table, list_bounds, Database, Session, D, ◌>>=◌, give,
  ask, query, refuse_default,
}

abbrev pub week : ℕ
week = 7 * day

abbrev pub minute : ℕ
minute = 60 * 10 ^ 9

pub record PartitionSpan : Type 0 where
  pub ahead : ℤ
  pub behind : ℤ

abbrev or_weeks : ℤ → ℕ → ℤ
or_weeks n k = if natural n == 0 then pos k else n

abbrev pub with_defaults : PartitionSpan → PartitionSpan
with_defaults s = record { ahead = or_weeks s.ahead 4; behind = or_weeks s.behind 2 }

unfoldable pub week_start : ℕ → ℕ
week_start t = let midnight = t - t % day in midnight - (weekday midnight + 6) % 7 * day

-- `%02d` of a number below 100.
abbrev pub two_digits : ℕ → Bytes
two_digits n = (b'0' + n / 10 % 10) ∷ (b'0' + n % 10) ∷ []

unfoldable pub partition_name : ℕ → Bytes
partition_name t = codes "events_w" ++ (itoa (pos (iso_year t)) ++ (b'_' ∷ two_digits (iso_week t)))

-- The start of the first week of the horizon, and how many weeks it has.
abbrev pub first_week : ℕ → PartitionSpan → ℕ
first_week now span = week_start now - natural (with_defaults span).behind * week

abbrev pub rounds : PartitionSpan → ℕ
rounds span = natural (with_defaults span).behind + natural (with_defaults span).ahead + 1

abbrev pub partitions : Bytes
partitions = codes "partitions: "

abbrev pub looking_for : Bytes → Bytes
looking_for name = partitions ++ (codes "looking for " ++ (name ++ codes ": "))

abbrev pub creating : Bytes → Bytes
creating name = partitions ++ (codes "creating " ++ (name ++ codes ": "))

-- `[]string` and the error.
abbrev pub Created : Type 0
Created = List Bytes × Option GoError

module _ (d : Database) where
  abbrev pub E : Type 0
  E = Session d.State → Created × Session d.State

  abbrev pub make_missing : Bytes → ℕ → Bool → D d (Option Bytes)
  make_missing name from true = give d (ok none)
  make_missing name from false = do
    _ ← query d (creating name) (create_table name from (from + week))
    give d (ok (some name))

  -- One week of the horizon: its name if it had to be created.
  unfoldable pub make_week : ℕ → D d (Option Bytes)
  make_week from = do
    there ← query d (looking_for (partition_name from)) (exists_table (partition_name from))
    make_missing (partition_name from) from there

  abbrev pub note_week : List Bytes → Result (Option Bytes) → (List Bytes → E) → E
  note_week created (ok none) k s = k created s
  note_week created (ok (some name)) k s = k (created ++ name ∷ []) s
  note_week created (err e) k s = ((created, some e), s)

  -- The loop of `EnsurePartitions`, from week `from` on, with the rounds that are left.
  unfoldable pub make_weeks : ℕ → ℕ → List Bytes → E
  make_weeks zero from created s = ((created, none), s)
  make_weeks (suc left) from created s =
      note_week created (make_week from s).0 (make_weeks left (from + week)) (make_week from s).1

  abbrev pub refused : GoError → E
  refused e s = (([], some e), s)

  unfoldable pub attempt : {A : Type 0} → Result A → (A → E) → E
  attempt (ok a) k = k a
  attempt (err e) k = refused e

  abbrev pub try : {A : Type 0} → D d A → (A → E) → E
  try m k s = attempt (m s).0 k (m s).1

  -- The deferred unlock.
  abbrev pub then_unlock : E → E
  then_unlock m s = ((m s).0, (ask d unlock (m s).1).1)

  unfoldable pub ensure_partitions : ℕ → PartitionSpan → E
  ensure_partitions now span = try (query d partitions connect) (λ _.
      try (query d partitions lock) (λ _.
        then_unlock
          (try (refuse_default d) (λ _. make_weeks (rounds span) (first_week now span) []))))

  -- The rows of the listing, as the map from names to bounds: a later row replaces an earlier one.
  abbrev pub put : Bytes → Bytes → List (Bytes × Bytes) → List (Bytes × Bytes)
  put name bound [] = (name, bound) ∷ []
  put name bound ((n, b) ∷ m) =
      if bytes_eq n name then (name, bound) ∷ m else (n, b) ∷ put name bound m

  unfoldable pub collect : List (Bytes × Bytes) → List (Bytes × Bytes) → List (Bytes × Bytes)
  collect [] m = m
  collect ((name, bound) ∷ rows) m = collect rows (put name bound m)

  -- `Partitions`.
  unfoldable pub listing : D d (List (Bytes × Bytes))
  listing = do _ ← ask d connect; rows ← ask d list_bounds; give d (ok (collect rows []))
