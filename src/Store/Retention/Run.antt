-- ===== src/Store/Retention/Run.antt =====
-- internal/store/retention.go: the run that drops the past weeks, statement by statement.
pub mod Cases
pub mod Order
pub mod Detaches
pub mod Past
pub mod Boundary
pub mod Complete
pub mod Cleared
pub mod Tracked
pub mod Resumes
pub mod Recovered
pub mod Sight
pub mod Leaves
pub mod Finished
use nine_core.Common.{
  ℕ, ◌+◌, ◌-◌, List, [], ◌∷◌, ◌++◌, Option, none, some, Bool, true, false, not, Bytes, codes,
  bytes_eq, ◌==◌, ltb, if◌then◌else◌, ◌&&◌, ℤ, natural,
}
use nine_core.Errors.{
  GoError, Result, ok, err, of_sentinel, wrap, plain, errors_is, no_rows, keep_inside_horizon,
  clock_ahead, pending_detach_elsewhere, labelled,
}
use nine_core.Store.Session.{
  Statement, Entry, connect, set_timeout, try_lock, unlock, read_clock, find_unfinished,
  list_partitions, find_pending, open_record, detach, count, fill_record, drop_table, stamp, Row,
  Unfinished, Database, Session, D, ◌>>=◌, give, ask, query, refuse_default,
}
use nine_core.Store.Partition.{PartitionSpan, minute}
use nine_core.Store.Retention.{floor, below, Dropped, Candidate, take_out, opened, past_rows}

abbrev pub retention : Bytes
retention = codes "retention: "

abbrev pub about : Bytes → Bytes → Bytes
about what name = retention ++ (what ++ (name ++ codes ": "))

abbrev pub dropping : Bytes → Bytes
dropping name =
    retention ++ (codes "drop " ++ (name ++ codes ", recorded as detached and not dropped: "))

abbrev pub dropping_unfinished : Bytes → Bytes
dropping_unfinished name = about (codes "drop the unfinished ") name

abbrev pub stamping_unfinished : Bytes → Bytes
stamping_unfinished name = about (codes "stamp the unfinished ") name

abbrev pub looking_unfinished : Bytes
looking_unfinished = codes "retention: look for an unfinished drop: "

-- `[]Dropped` and the error.
abbrev pub Report : Type 0
Report = List Dropped × Option GoError

abbrev pending_name : Result Bytes → Result Bytes
pending_name (ok n) = ok n
pending_name (err e) = if errors_is e no_rows then ok [] else err (wrap retention e [])

abbrev bad_keep : GoError
bad_keep = plain (codes "retention: keep must be positive")

abbrev not_locked : GoError
not_locked = plain (codes "retention: another partition maintainer holds the lock")

abbrev ahead_of_database : GoError
ahead_of_database =
    wrap [] (of_sentinel clock_ahead (codes "the caller's clock is ahead of the database's")) []

abbrev inside_horizon : GoError
inside_horizon =
    wrap []
      (of_sentinel keep_inside_horizon
        (codes "the retention promise is inside the horizon the maintainer keeps alive"))
      []

abbrev pending_elsewhere : Bytes → GoError
pending_elsewhere n =
    wrap []
      (of_sentinel pending_detach_elsewhere
        (codes "a partition outside the retention boundary is half detached"))
      (codes ": " ++ n)

module _ (d : Database) where
  -- One partition: record, detach, count, fill the record in, drop, stamp.
  unfoldable pub drop_one : Candidate → ℕ → D d Dropped
  drop_one c now = do
    id ← (λ s. (
      opened c.name (ask d (open_record c.name c.from c.to) s).0,
      (ask d (open_record c.name c.from c.to) s).1,
    ))
    _ ← query d (about (codes "detach ") c.name) (detach c.name c.detach_is_pending)
    rows ← query d (about (codes "count ") c.name) (count c.name)
    _ ← query d (about (codes "record the count for ") c.name) (fill_record id rows now)
    _ ← query d (dropping c.name) (drop_table c.name)
    _ ← query d (about (codes "stamp ") c.name) (stamp id now)
    give d (
        ok (record {
          name = c.name;
          range_start = c.from;
          range_end = c.to;
          rows = rows;
          counted = true;
        }))

  -- The count that a record has already, or that the run takes.
  abbrev pub recount : Unfinished → ℕ → D d ℕ
  recount u now = do
    n ← query d (about (codes "count the unfinished ") u.name) (count u.name)
    _ ←
        query d (about (codes "record the count for the unfinished ") u.name)
          (fill_record u.id n now)
    give d (ok n)

  abbrev pub counted_rows : Unfinished → ℕ → Bool → Option ℕ → D d ℕ
  counted_rows u now true (some n) = give d (ok n)
  counted_rows u now true none = recount u now
  counted_rows u now false rows = recount u now

  abbrev pub close : Unfinished → ℕ → ℕ → Bool → D d Dropped
  close u now n counted = do
    _ ← query d (stamping_unfinished u.name) (stamp u.id now)
    give d (
        ok (record {
          name = u.name;
          range_start = u.from;
          range_end = u.to;
          rows = n;
          counted = counted;
        }))

  abbrev pub resume_as : Unfinished → ℕ → Bool → Option ℕ → D d Dropped
  resume_as u now true rows = do
    n ← counted_rows u now u.counted rows
    _ ← query d (dropping_unfinished u.name) (drop_table u.name)
    close u now n true
  resume_as u now false (some n) = close u now n true
  resume_as u now false none = close u now 0 false

  unfoldable pub resume_one : Unfinished → ℕ → D d Dropped
  resume_one u now = resume_as u now u.on_disk u.rows

  abbrev pub R : Type 0
  R = Session d.State → Report × Session d.State

  -- The loops of `Retain` and of `resumeUnfinished`: what was dropped stays in the report.
  abbrev pub step_on : List Dropped → Result Dropped → (List Dropped → R) → R
  step_on out (ok x) k s = k (out ++ x ∷ []) s
  step_on out (err e) k s = ((out, some e), s)

  unfoldable pub drop_all : List Candidate → ℕ → List Dropped → R
  drop_all [] now out s = ((out, none), s)
  drop_all (c ∷ cs) now out s =
      step_on out (drop_one c now s).0 (drop_all cs now) (drop_one c now s).1

  unfoldable pub resume_all : List Unfinished → ℕ → List Dropped → R
  resume_all [] now out s = ((out, none), s)
  resume_all (u ∷ us) now out s =
      step_on out (resume_one u now s).0 (resume_all us now) (resume_one u now s).1

  abbrev pub fail : GoError → R
  fail e s = (([], some e), s)

  -- `if err != nil { return nil, err }`.
  unfoldable pub attempt : {A : Type 0} → Result A → (A → R) → R
  attempt (ok a) k = k a
  attempt (err e) k = fail e

  abbrev pub try : {A : Type 0} → D d A → (A → R) → R
  try m k s = attempt (m s).0 k (m s).1

  unfoldable pub resume_unfinished : ℕ → R
  resume_unfinished now =
      try (query d looking_unfinished find_unfinished) (λ us. resume_all us now [])

  -- One pending detach blocks the others, so it goes first; a foreign one stops the run.
  abbrev pub pending_first : Bytes → List Candidate → ℕ → List Dropped → R
  pending_first [] cs now out = drop_all cs now out
  pending_first (b ∷ n) cs now out = elim (take_out (b ∷ n) cs) [
    | none ↦ fail (pending_elsewhere (b ∷ n))
    | some (c, rest) ↦ drop_all (c ∷ rest) now out
  ]

  module _ (parse : Bytes → Bytes → Option ℕ) where
    unfoldable pub drop_past : ℕ → ℕ → List Dropped → R
    drop_past now keep out = try (query d retention list_partitions) (λ rows.
        attempt (past_rows parse (now - keep) rows) (λ cs.
          try (λ s. (pending_name (ask d find_pending s).0, (ask d find_pending s).1))
            (λ p. pending_first p cs now out)))

    -- What follows `resumeUnfinished`.
    abbrev pub resumed : Report → ℕ → ℕ → R
    resumed (out, some e) now keep s = ((out, some e), s)
    resumed (out, none) now keep s = drop_past now keep out s

    -- Under the lock.
    unfoldable pub locked_run : ℕ → ℕ → PartitionSpan → R
    locked_run now keep span = try (query d retention read_clock) (λ db_now.
        if ltb (db_now + minute) now
        then fail ahead_of_database
        else if below keep (floor span)
        then fail inside_horizon
        else try (refuse_default d)
            (λ _ s. resumed (resume_unfinished now s).0 now keep (resume_unfinished now s).1))

    -- The deferred unlock.
    abbrev pub then_unlock : R → R
    then_unlock m s = ((m s).0, (ask d unlock (m s).1).1)

    unfoldable pub retain : ℕ → ℤ → PartitionSpan → R
    retain now keep span =
        if natural keep == 0
        then fail bad_keep
        else try (query d retention connect) (λ _. try (query d retention set_timeout) (λ _.
          try (query d retention try_lock) (λ locked.
            if locked then then_unlock (locked_run now (natural keep) span) else fail not_locked)))
