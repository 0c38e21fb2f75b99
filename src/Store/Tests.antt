-- ===== src/Store/Tests.antt =====
-- Errors of the insert, and the theorems at concrete ones.
use nine_core.Common.{
  map, ℕ, ◌*◌, ◌<◌, List, [], ◌∷◌, Option, none, some, Bool, true, false, ◌⊎◌, Bytes, codes, ◌≡◌,
  refl, bytes_eq, pos, inl, inr, Occurs, int_limit, arith,
}
use nine_core.Errors.{
  GoError, PgError, Result, ok, err, of_sentinel, pg, errors_is, is_in, find_pg, not_inserted,
  no_rows,
}
use nine_core.Event.{AgentRun}
use nine_core.Store.Insert.Columns.{Value, arguments}
use nine_core.Store.Insert.{inserted, insert, handle, handle-done}
use nine_core.Store.Session.{
  statement, Statement, Answer, connect, set_timeout, try_lock, unlock, read_clock, find_default,
  find_unfinished, list_partitions, find_pending, open_record, detach, count, fill_record,
  drop_table, stamp, lock, list_bounds, exists_table, create_table, Row, Database, Session, refusal,
  ◌>>=◌,
}
use nine_core.Store.Partition.{PartitionSpan, week}
use nine_core.Calendar.{day}
use nine_core.Store.Retention.{
  Candidate, Dropped, after, quoted, captures, parse_bound, parse_bounds, past_rows, insert_by_from,
}
use nine_core.Store.Retention.Run.{
  retain, locked_run, resume_unfinished, resume_all, drop_past, drop_all, drop_one, attempt,
}
use nine_core.Store.Retention.Run.Order.{as_dropped, IsOrdered, drop_one-IsOrdered}
use nine_core.Store.Retention.Run.Complete.{dropped_names, drop_past_complete}
use nine_core.Store.Retention.Run.Boundary.{IsSafe, retain-IsSafe}
use nine_core.Pipeline.{retry, fatal}
use nine_core.Retry.Marks.Vocabulary.{valid_code, is_sqlstate}
use nine_core.Store.Classify.{classify, classify_pg, failure_code}
use nine_core.Store.Classify.Table.{classify-done, failure_code-valid}

abbrev server_error : Bytes → Bytes → GoError
server_error code constraint = record {
  text = codes "ERROR";
  chain = pg (record { code = code; constraint_name = constraint }) ∷ [];
}

abbrev never : GoError → Bool
never e = false

-- A missing partition is a Retry, a named constraint is Fatal.
check_violations :
    (classify never (some (server_error (codes "23514") [])) ≡ retry)
    × (classify never (some (server_error (codes "23514") (codes "ev_h"))) ≡ fatal)
unfolding classify is_in find_pg classify_pg bytes_eq
check_violations = (refl, refl)

abbrev duplicate : GoError
duplicate = server_error (codes "23505") []

classify-done_example :
    (errors_is duplicate not_inserted ≡ true)
    ⊎ ((p : PgError) × (find_pg duplicate.chain ≡ some p) × (p.code ≡ codes "23505"))
unfolding classify is_in find_pg classify_pg bytes_eq
classify-done_example = classify-done never duplicate refl

abbrev race : GoError
race = server_error (codes "40001") []

failure_code-valid_example : valid_code (failure_code never (some race)) ≡ true
unfolding find_pg is_sqlstate
failure_code-valid_example = failure_code-valid never race refl

-- A database with one week that is past and one that is not, and nothing pending.
abbrev bound_of : Bytes → Bytes → Option ℕ
bound_of layout [] = none
bound_of layout (c ∷ s) = some (c * week)

abbrev two_weeks : List Row
two_weeks =
    record { name = codes "new"; bounds = codes "FOR VALUES FROM ('c') TO ('d')"; pending = false }
    ∷ record {
      name = codes "old";
      bounds = codes "FOR VALUES FROM ('A') TO ('B')";
      pending = false;
    }
    ∷ []

abbrev nothing_found : GoError
nothing_found = of_sentinel no_rows (codes "no rows in result set")

abbrev answers : (q : Statement) → Result (Answer q)
answers try_lock = ok true
answers read_clock = ok (100 * week)
answers find_default = err nothing_found
answers find_pending = err nothing_found
answers find_unfinished = ok []
answers list_partitions = ok two_weeks
answers (open_record n f t) = ok 7
answers (count n) = ok 6
answers connect = ok tt
answers set_timeout = ok tt
answers unlock = ok tt
answers (detach n p) = ok tt
answers (fill_record i n t) = ok tt
answers (drop_table n) = ok tt
answers (stamp i t) = ok tt
answers lock = ok tt
answers list_bounds = ok []
answers (exists_table n) = ok false
answers (create_table n f t) = ok tt

abbrev small : Database
small = record { State = Unit {0}; answer = λ q s. (answers q, s) }

abbrev fresh : Session (Unit {0})
fresh = record { trace = []; state = tt }

abbrev span : PartitionSpan
span = record { ahead = pos 4; behind = pos 2 }

-- Only the old week goes, and its statements come in order, after the search and before the unlock.
statements-retain :
    map statement (retain small bound_of (100 * week) (pos (30 * day)) span fresh).1.trace
    ≡ unlock
      ∷ stamp 7 (100 * week)
      ∷ drop_table (codes "old")
      ∷ fill_record 7 6 (100 * week)
      ∷ count (codes "old")
      ∷ detach (codes "old") false
      ∷ open_record (codes "old") (65 * week) (66 * week)
      ∷ find_pending
      ∷ list_partitions
      ∷ find_unfinished
      ∷ find_default
      ∷ read_clock
      ∷ try_lock
      ∷ set_timeout
      ∷ connect
      ∷ []
unfolding retain locked_run resume_unfinished resume_all drop_past past_rows parse_bounds captures
    parse_bound after quoted bytes_eq insert_by_from drop_all drop_one refusal attempt is_in ◌>>=◌
statements-retain = refl

abbrev old_week : Candidate
old_week = record {
  name = codes "old";
  from = 65 * week;
  to = 66 * week;
  detach_is_pending = false;
}

drop_one-IsOrdered_example :
    IsOrdered old_week (100 * week) fresh.trace (drop_one small old_week (100 * week) fresh)
drop_one-IsOrdered_example = drop_one-IsOrdered small old_week (100 * week) fresh

abbrev no_overflow : 2 * week < int_limit
no_overflow = omega arith

retain-IsSafe_example :
    IsSafe bound_of small
      (100 * week)
      span
      no_overflow
      (30 * day)
      (retain small bound_of (100 * week) (pos (30 * day)) span fresh).1.trace
retain-IsSafe_example =
    retain-IsSafe bound_of small (100 * week) span no_overflow (pos (30 * day)) fresh tt

abbrev some_run : AgentRun
some_run = record {
  tenant = codes "t";
  event_id = codes "e";
  occurred_at = 5;
  agent = 0;
  agent_version = none;
  session_id = none;
  repo_hash = none;
  duration_ms = pos 1;
  outcome = 0;
  error_kind = none;
  model = none;
  tokens_in = none;
  tokens_out = none;
  cost_micros = none;
  files_touched = none;
  lines_added = none;
  lines_removed = none;
  tool_calls = none;
}

-- An insert that finds its key taken.
abbrev conflict : List Value → ℕ → Result Bytes × ℕ
conflict e n = (err nothing_found, n)

conflict_chain :
    (x : GoError) → (conflict (arguments some_run) 0).0 ≡ err x → errors_is x not_inserted ≡ false
unfolding is_in
conflict_chain x h = let e : nothing_found ≡ x = cc in rw (← e) refl

handle-done_example :
    ((id : Bytes) × ((conflict (arguments some_run) 0).0 ≡ ok id))
    ⊎ ((x : GoError) × ((conflict (arguments some_run) 0).0 ≡ err x)
        × ((errors_is x no_rows ≡ true)
            ⊎ ((p : PgError) × (find_pg x.chain ≡ some p) × (p.code ≡ codes "23505"))))
unfolding handle insert inserted classify is_in
handle-done_example = handle-done never conflict some_run 0 conflict_chain refl

abbrev old_row : Row
old_row = record {
  name = codes "old";
  bounds = codes "FOR VALUES FROM ('A') TO ('B')";
  pending = false;
}

abbrev gone : List Dropped
gone = as_dropped old_week 6 ∷ []

drop_past_complete_example : Occurs (codes "old") (dropped_names gone)
unfolding drop_past past_rows parse_bounds captures parse_bound after quoted bytes_eq insert_by_from
    drop_all drop_one attempt is_in ◌>>=◌
drop_past_complete_example =
    drop_past_complete bound_of small (100 * week) (30 * day) [] gone fresh two_weeks old_row
      (65 * week) (66 * week) refl (inr (inl refl)) refl (omega arith) refl
