-- ===== src/Event.antt =====
-- internal/event/agent_run.go: one record of the log becomes one row of the table.
pub mod Rows
pub mod Outside
pub mod Failures
mod Tests
use nine_core.Common.{
  ℕ, zero, suc, ◌+◌, ◌-◌, ◌*◌, List, [], ◌∷◌, ◌++◌, Option, none, some, Bool, true, false, Bytes,
  codes, bytes_eq, ◌==◌, leb, if◌then◌else◌, ◌&&◌, length, ℤ,
}
use nine_core.Strconv.{decimal}
use nine_core.Errors.{GoError, Result, ok, err, ◌>>=◌, of_sentinel, wrap, plain, unknown_value}

-- `wire`: the transmitted shape.
pub record Wire : Type 0 where
  pub event_id : Bytes
  pub agent : Bytes
  pub agent_version : Option Bytes
  pub session_id : Option Bytes
  pub repo_hash : Option Bytes
  pub occurred_at : Bytes
  pub duration_ms : ℤ
  pub outcome : Bytes
  pub error_kind : Option Bytes
  pub model : Option Bytes
  pub tokens_in : Option ℤ
  pub tokens_out : Option ℤ
  pub cost_micros : Option ℤ
  pub files_touched : Option ℤ
  pub lines_added : Option ℤ
  pub lines_removed : Option ℤ
  pub tool_calls : Option ℤ

-- `AgentRun`: the stored shape. A hash that is absent is `none`, the nil slice.
pub record AgentRun : Type 0 where
  pub tenant : Bytes
  pub event_id : Bytes
  pub occurred_at : ℕ
  pub agent : ℕ
  pub agent_version : Option Bytes
  pub session_id : Option Bytes
  pub repo_hash : Option Bytes
  pub duration_ms : ℤ
  pub outcome : ℕ
  pub error_kind : Option ℕ
  pub model : Option Bytes
  pub tokens_in : Option ℤ
  pub tokens_out : Option ℤ
  pub cost_micros : Option ℤ
  pub files_touched : Option ℤ
  pub lines_added : Option ℤ
  pub lines_removed : Option ℤ
  pub tool_calls : Option ℤ

abbrev pub agents : List Bytes
agents =
    codes "claude-code"
    ∷ codes "cursor"
    ∷ codes "codex"
    ∷ codes "copilot"
    ∷ codes "aider"
    ∷ codes "other"
    ∷ []

abbrev pub outcomes : List Bytes
outcomes = codes "success" ∷ codes "error" ∷ codes "cancelled" ∷ codes "timeout" ∷ []

abbrev pub error_kinds : List Bytes
error_kinds =
    codes "rate_limit"
    ∷ codes "context_limit"
    ∷ codes "tool_failure"
    ∷ codes "network"
    ∷ codes "auth"
    ∷ codes "user_abort"
    ∷ codes "unknown"
    ∷ []

abbrev pub unknown_name : Bytes → GoError
unknown_name v =
    wrap [] (of_sentinel unknown_value (codes "value outside the contract's enum"))
      (codes ": " ++ v)

-- The loop of `index`, `i` values into the set.
unfoldable pub index_from : ℕ → List Bytes → Bytes → Result ℕ
index_from i [] v = err (unknown_name v)
index_from i (s ∷ set) v = if bytes_eq s v then ok i else index_from (i + 1) set v

unfoldable pub index : List Bytes → Bytes → Result ℕ
unfolding index_from
index set v = index_from 0 set v

-- The value of a hex digit.
unfoldable pub hex_value : ℕ → Option ℕ
hex_value c =
    if leb b'0' c && leb c b'9'
    then some (c - b'0')
    else if leb b'a' c && leb c b'f'
    then some (c - b'a' + 10)
    else if leb b'A' c && leb c b'F'
    then some (c - b'A' + 10)
    else none

abbrev pub hex_pair : Option ℕ → Option ℕ → Option Bytes → Option Bytes
hex_pair (some a) (some b) (some rest) = some ((a * 16 + b) ∷ rest)
hex_pair _ _ _ = none

-- `hex.DecodeString` of the standard library: `none` is its error.
unfoldable pub decode_hex : Bytes → Option Bytes
decode_hex [] = some []
decode_hex (a ∷ []) = none
decode_hex (a ∷ b ∷ s) = hex_pair (hex_value a) (hex_value b) (decode_hex s)

abbrev pub of_width : Bytes → Option Bytes → Result (Option Bytes)
of_width refusal none = err (plain refusal)
of_width refusal (some b) =
    if length b == 32
    then ok (some b)
    else err (plain (decimal (length b) ++ codes " bytes, want 32"))

-- `refusal` is the text of the error of the hex decoder.
unfoldable pub sha256_bytes : (refusal : Bytes → Bytes) → Option Bytes → Result (Option Bytes)
sha256_bytes refusal none = ok none
sha256_bytes refusal (some s) = of_width (refusal s) (decode_hex s)

-- `fmt.Errorf("<step>: %w", err)` on the error of a step.
abbrev pub in_step {ℓ} : {A : Type ℓ} → Bytes → Result A → Result A
in_step step (ok a) = ok a
in_step step (err e) = err (wrap (step ++ codes ": ") e [])

unfoldable pub kind_index : Option Bytes → Result (Option ℕ)
kind_index none = ok none
kind_index (some v) = do k ← index error_kinds v; ok (some k)

abbrev pub no_key : Bytes
no_key = codes "decode: record has no key, and the key is the tenant"

abbrev pub no_id : Bytes
no_id = codes "decode: event_id missing"

abbrev pub refuse_empty : Bytes → Bytes → Result (Unit {0})
refuse_empty [] why = err (plain why)
refuse_empty (c ∷ s) why = ok tt

-- The JSON decoder, strict about fields it does not know, and the time parser are the standard
-- library's: the program reads of them the value or the error. Of an error of the hex decoder it
-- passes on the text, `hex_refusal`.
pub record Parsers : Type 0 where
  pub unmarshal : Bytes → Result Wire
  pub parse_time : Bytes → Result ℕ
  pub hex_refusal : Bytes → Bytes

module _ (p : Parsers) where
  unfoldable pub decode : Bytes → Bytes → Result AgentRun
  decode key text = do
    w ← in_step (codes "decode") (p.unmarshal text)
    _ ← refuse_empty key no_key
    _ ← refuse_empty w.event_id no_id
    at ← in_step (codes "decode occurred_at") (p.parse_time w.occurred_at)
    agent ← in_step (codes "decode agent") (index agents w.agent)
    outcome ← in_step (codes "decode outcome") (index outcomes w.outcome)
    kind ← in_step (codes "decode error_kind") (kind_index w.error_kind)
    session ← in_step (codes "decode session_id") (sha256_bytes p.hex_refusal w.session_id)
    repo ← in_step (codes "decode repo_hash") (sha256_bytes p.hex_refusal w.repo_hash)
    ok (record {
      tenant = key;
      event_id = w.event_id;
      occurred_at = at;
      agent = agent;
      agent_version = w.agent_version;
      session_id = session;
      repo_hash = repo;
      duration_ms = w.duration_ms;
      outcome = outcome;
      error_kind = kind;
      model = w.model;
      tokens_in = w.tokens_in;
      tokens_out = w.tokens_out;
      cost_micros = w.cost_micros;
      files_touched = w.files_touched;
      lines_added = w.lines_added;
      lines_removed = w.lines_removed;
      tool_calls = w.tool_calls;
    })
