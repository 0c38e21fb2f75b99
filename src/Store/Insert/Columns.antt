-- ===== src/Store/Insert/Columns.antt =====
-- internal/store/store.go: the arguments of `insertSQL`, and internal/store/migrations/00001_events.sql:
-- the columns of the table that take them.
pub mod Fits
use nine_core.Common.{ℕ, List, [], ◌∷◌, Option, none, some, Bool, true, false, Bytes, codes, ℤ, pos}
use nine_core.Event.{AgentRun}

-- A value of a statement, by the type that the driver sends it as; a nil pointer and a nil slice are
-- `null`.
pub data Value : Type 0 where
  null : Value
  text : Bytes → Value
  timestamp : ℕ → Value
  integer : ℤ → Value
  bytes : Bytes → Value

pub data Kind : Type 0 where
  text_column timestamptz smallint bigint bytea : Kind

-- A column of a table: the number of bytes is that of its CHECK.
pub record Column : Type 0 where
  pub name : Bytes
  pub kind : Kind
  pub is_nullable : Bool
  pub octets : Option ℕ

abbrev required : Bytes → Kind → Column
required name kind = record { name = name; kind = kind; is_nullable = false; octets = none }

abbrev pub optional : Bytes → Kind → Column
optional name kind = record { name = name; kind = kind; is_nullable = true; octets = none }

abbrev pub sha256 : Bytes → Column
sha256 name = record (optional name bytea) { octets = some 32 }

-- The table `events`.
abbrev pub events_columns : List Column
events_columns =
    required (codes "tenant_id") text_column
    ∷ required (codes "event_id") text_column
    ∷ required (codes "occurred_at") timestamptz
    ∷ required (codes "agent") smallint
    ∷ optional (codes "agent_version") text_column
    ∷ sha256 (codes "session_id")
    ∷ sha256 (codes "repo_hash")
    ∷ required (codes "duration_ms") bigint
    ∷ required (codes "outcome") smallint
    ∷ optional (codes "error_kind") smallint
    ∷ optional (codes "model") text_column
    ∷ optional (codes "tokens_in") bigint
    ∷ optional (codes "tokens_out") bigint
    ∷ optional (codes "cost_micros") bigint
    ∷ optional (codes "files_touched") bigint
    ∷ optional (codes "lines_added") bigint
    ∷ optional (codes "lines_removed") bigint
    ∷ optional (codes "tool_calls") bigint
    ∷ []

-- The columns that `insertSQL` names.
abbrev pub insert_columns : List Bytes
insert_columns =
    codes "tenant_id"
    ∷ codes "event_id"
    ∷ codes "occurred_at"
    ∷ codes "agent"
    ∷ codes "agent_version"
    ∷ codes "session_id"
    ∷ codes "repo_hash"
    ∷ codes "duration_ms"
    ∷ codes "outcome"
    ∷ codes "error_kind"
    ∷ codes "model"
    ∷ codes "tokens_in"
    ∷ codes "tokens_out"
    ∷ codes "cost_micros"
    ∷ codes "files_touched"
    ∷ codes "lines_added"
    ∷ codes "lines_removed"
    ∷ codes "tool_calls"
    ∷ []

abbrev pub nullable : {A : Type 0} → (A → Value) → Option A → Value
nullable f none = null
nullable f (some a) = f a

abbrev pub index_value : ℕ → Value
index_value n = integer (pos n)

-- What `Insert` passes for the parameters $1 to $18.
unfoldable pub arguments : AgentRun → List Value
arguments e =
    text e.tenant
    ∷ text e.event_id
    ∷ timestamp e.occurred_at
    ∷ index_value e.agent
    ∷ nullable text e.agent_version
    ∷ nullable bytes e.session_id
    ∷ nullable bytes e.repo_hash
    ∷ integer e.duration_ms
    ∷ index_value e.outcome
    ∷ nullable index_value e.error_kind
    ∷ nullable text e.model
    ∷ nullable integer e.tokens_in
    ∷ nullable integer e.tokens_out
    ∷ nullable integer e.cost_micros
    ∷ nullable integer e.files_touched
    ∷ nullable integer e.lines_added
    ∷ nullable integer e.lines_removed
    ∷ nullable integer e.tool_calls
    ∷ []
