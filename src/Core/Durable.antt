-- ===== src/Core/Durable.antt =====
-- cmd/core/main.go: what the documentation says of the calls that leave the process.
use nine_core.Common.{ℕ, List, Option, none, some, true, false, Bytes, codes, ◌≡◌, ℤ}
use nine_core.Errors.{GoError, ok, err, PgError, errors_is, find_pg, no_rows, not_inserted}
use nine_core.Kafka.{Record}
use nine_core.Store.Insert.Columns.{Value}
use nine_core.Core.{Platform}

-- That a row with the key of some values has been in the table, and that a record has been appended
-- to its topic.
pub record Facts (S : Type 0) : Type 1 where
  pub Recorded : S → List Value → Type 0
  pub Sent : S → Record → Type 0

abbrev pub Keeps : {S : Type 0} → Facts S → S → S → Type 0
Keeps f s s' =
    ((v : List Value) → f.Recorded s v → f.Recorded s' v)
    × ((r : Record) → f.Sent s r → f.Sent s' r)

-- What the documentation of the database and of the Kafka client says of the platform's calls:
-- a row that the statement returned, or refused for its key, has been in the table; a record
-- that the producer acknowledged is in the log; what has
-- been stays so.
pub record Durable (p : Platform) : Type 1 where
  pub facts : Facts p.State
  pub returned :
      (v : List Value) (s : p.State) (id : Bytes)
      → (p.query_row v s).0 ≡ ok id
      → facts.Recorded (p.query_row v s).1 v
  pub conflicting :
      (v : List Value) (s : p.State) (x : GoError)
      → (p.query_row v s).0 ≡ err x
      → errors_is x no_rows ≡ true
      → facts.Recorded (p.query_row v s).1 v
  pub violated :
      (v : List Value) (s : p.State) (x : GoError) (g : PgError)
      → (p.query_row v s).0 ≡ err x
      → find_pg x.chain ≡ some g
      → g.code ≡ codes "23505"
      → facts.Recorded (p.query_row v s).1 v
  pub foreign :
      (v : List Value) (s : p.State) (x : GoError)
      → (p.query_row v s).0 ≡ err x
      → errors_is x not_inserted ≡ false
  pub acknowledged :
      (r : Record) (s : p.State) → (p.produce r s).0 ≡ none → facts.Sent (p.produce r s).1 r
  pub query_row_keeps : (v : List Value) (s : p.State) → Keeps facts s (p.query_row v s).1
  pub produce_keeps : (r : Record) (s : p.State) → Keeps facts s (p.produce r s).1
  pub poll_keeps : (n : ℤ) (d : Option ℕ) (s : p.State) → Keeps facts s (p.poll n d s).1
  pub commit_keeps : (rs : List Record) (s : p.State) → Keeps facts s (p.commit_records rs s).1
  pub now_keeps : (s : p.State) → Keeps facts s (p.now s).1
  pub cancelled_keeps : (s : p.State) → Keeps facts s (p.cancelled s).1
