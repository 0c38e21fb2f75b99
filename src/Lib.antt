-- ===== src/Lib.antt =====
-- nine-core reads agent events from a Kafka log and writes them to a partitioned PostgreSQL table.
-- This library models the program's own Go code, below internal/ and cmd/, and proves what makes each
-- part correct.
--
-- The parts, in the order a record meets them:
--
-- Consumer, Consumer/Setup, Consumer/Run: internal/consumer/consumer.go. A `Machine` is the
-- consumer's own state (`waiting`), a state of the world of which nothing is assumed, and the
-- calls that left the consumer, the latest first. `World` holds what the consumer is given: the
-- decoder, the handler, the sink, the commit hook, the clock, the context, and the two calls of
-- the Kafka client that answer. `process`, `one`, `hold`, `ripe`, `commit`, `batch`,
-- `resume_ripe`, `poll_deadline` and `run` are the methods of the same names; `look` and `next`
-- are the body of the loop of `process`, `round` that of `Run`. `forget` is the callback of a
-- revoked partition.
-- Consumer/Frame, Consumer/Batches: what each operation of the consumer needs of a relation of its
-- states, or of a predicate, to keep it; the theorems over the whole loop are instances.
-- Consumer/Pauses: the rounds of `Run` with the callbacks of a rebalance between and within them,
-- as a step relation, `Step`, and `Reach` for any number of steps. What the client has paused is
-- read from the calls; that a pause lasts until it is resumed, and that a paused partition is not
-- fetched, is what the documentation of the Kafka client says.
-- Event: internal/event/agent_run.go. `decode` turns the key and the value of a record into a
-- row; the JSON and the time parser are its parameters.
-- Event/Outside: which records fail for a value outside an enum, told from the record alone.
-- Pipeline: internal/pipeline/outcome.go and outcome_string.go, the answers of a handler.
-- Store/Classify: internal/store/classify.go, from the error of an insert to an outcome and to
-- a failure code.
-- Store/Insert: internal/store/store.go and handler.go, the handler of the consumer; its statement
-- is a parameter, on the values of its arguments, and a `Table` one that does what the
-- documentation of the database says.
-- Store/Insert/Columns: the columns and the arguments of `insertSQL`, and the columns of
-- internal/store/migrations/00001_events.sql that take them.
-- Store/Session: the statements of internal/store/partition.go and retention.go, and the refusal of
-- a default partition. A `Database` answers a `Statement`, and nothing is assumed of its answers; a
-- `Session` keeps each statement with its answer, the latest first.
-- Store/Catalogue: what the statements do to the tables, the partitions and the records of drops,
-- as the documentation of PostgreSQL says. A `Catalogue` is a database of which this is assumed;
-- only the theorems that take one rest on it.
-- Store/Partition: internal/store/partition.go. `week_start`, `partition_name` and
-- `ensure_partitions` are the functions of the same names, `make_weeks` is the loop of the last and
-- `make_week` its body. Store/Partition/Bounds: the bounds of the tables that it creates.
-- Store/Retention, Store/Retention/Run: internal/store/retention.go. `retain`, `drop_one`,
-- `resume_unfinished` are the functions of the same names, `past_rows` is the loop of
-- `pastPartitions`; the parser of a bound is a parameter.
-- Retry/Chain, Retry/Marks, Retry/Forwarder: internal/retry/chain.go, marks.go and forwarder.go,
-- the sink of the consumer. `route` decides where a record goes, `apply` writes its marks,
-- `forward` produces it; Retry/Marks/Vocabulary holds the keys and the fixed values of the marks.
-- The clock and the producer are a `Broker`, the time format, the name of a failure and the id in a
-- payload are a `Naming`.
-- Kafka, Errors, Strconv, Calendar: the values of the libraries that the code reads. A record and
-- its headers; an error as its text and the chain that `errors.Is` walks; decimal numbers; the
-- week day and the ISO week of a time.
-- Common: bytes, native lengths, integers and the lists of every component.
--
-- Core: cmd/core/main.go, where the parts meet: the consumer's decoder is `Event.decode`, its
-- handler is `Store.Insert.handle`, its sink is `Retry.Forwarder.forward`, and the forwarder names
-- a failure by `Store.Classify.failure_code`. `core` is `run`; a `Platform` answers the calls that
-- leave the process, and a `Durable` platform, of Core/Durable, is one that does what the
-- documentation of the database and of the Kafka client says.
-- Maintainer: cmd/partition/main.go, its `run` with the lines that it prints. The order in which a
-- range over a map comes is a parameter.
-- Consumer/Promise, its child Loop: what any decoder, handler and sink have to keep for what is
-- committed to be settled.
-- Consumer/Ripeness, Consumer/Shutdown, Consumer/Deadline: the age of a record, a context that has
-- ended, and the wait of a poll. A `Gate` is a world with a clock that is never
-- set back, an `Ending` one whose context stays ended.
-- Consumer/Log, its children Steps, Batch, Lasts, Reach, Loop and Below: the log of a partition and the
-- offset commits of a whole run of the consumer. A `Client` is a world whose polls do what the
-- documentation of the Kafka client says: they fetch records in a row, from the client's position,
-- from before it, or from what other members of the group have committed. A `Context` is an `Ending`
-- that is over once it is found to be, and that may end at any time.
-- Core/Covered: the same for the process of cmd/core/main.go, on a `Durable` platform.
-- Command: cmd/migrate/main.go with `Migrate` of internal/store/store.go, and `main` of
-- cmd/partition/main.go with its flags. The flag library and the migration library are parameters.
-- Core/Fault: cmd/core/fault_on.go, the hook of a build for the crash tests.
--
-- Bounds: a time and a duration count nanoseconds, from the zero time of Go, without an upper
-- bound; a round is an `int` and the floor of a promise a duration of 64 bits. `Consumer.Run.run`
-- takes the number of rounds that it looks at, and `none` says that the loop still runs.
-- `Pipeline.itoa` has the 20 bytes of its buffer, and `none` is the panic behind it.
-- `Strconv.decimal` has 20 digits, which every number below 10 ^ 20 fits. The weeks of a span are
-- integers without a bound, and the names of the weeks are told apart for 2 ^ 62 days,
-- `Store.Partition.Names.end_of_time`.
--
-- Not modelled: logging; the quoting of `%q` and the durations in an error's text; a panic of a
-- handler; the SQL of internal/store, but for the columns of the insert, and `Count`; the close of
-- a connection, but for that of a migration. The encoding of a text that is stored is not checked.
-- The boundary of a retention run and the first week of a horizon are taken to lie after the zero
-- time. An error that ends the listing of the partitions carries the label of its query.
pub mod Common
pub mod Errors
pub mod Strconv
pub mod Calendar
pub mod Pipeline
pub mod Kafka
pub mod Consumer
pub mod Retry
pub mod Event
pub mod Store
pub mod Core
pub mod Maintainer
pub mod Command
