-- ===== src/Event/Tests.antt =====
-- Decoding at concrete records, with a decoder of one payload.
use nine_core.Common.{
  [], ◌∷◌, none, some, Bool, false, Bytes, codes, bytes_eq, if◌then◌else◌, pos, ◌≡◌, ◌≢◌, refl,
  get_elem?, map, arith,
}
use nine_core.Errors.{GoError, Result, ok, err, plain, errors_is, unknown_value, is_in}
use nine_core.Event.{
  Wire, AgentRun, Parsers, agents, outcomes, index, kind_index, sha256_bytes, decode,
}
use nine_core.Event.Rows.{Names, IsHash, decode_sound}
use nine_core.Event.Outside.{AreLocal, has_unknown_value}
use nine_core.Event.Failures.{failure_code-decode}
use nine_core.Store.Classify.{failure_code}
use nine_core.Store.Insert.Columns.{events_columns, insert_columns, arguments}
use nine_core.Store.Insert.Columns.Fits.{IsWide, Fit, arguments-Fit}

abbrev sent : Bytes → Wire
sent agent = record {
  event_id = codes "e1";
  agent = agent;
  agent_version = none;
  session_id = none;
  repo_hash = none;
  occurred_at = codes "now";
  duration_ms = pos 5;
  outcome = codes "timeout";
  error_kind = some (codes "network");
  model = none;
  tokens_in = none;
  tokens_out = none;
  cost_micros = none;
  files_touched = none;
  lines_added = none;
  lines_removed = none;
  tool_calls = none;
}

-- The payload is the name of the agent, and every time is 1.
abbrev parsers : Parsers
parsers = record { unmarshal = λ s. ok (sent s); parse_time = λ s. ok 1; hex_refusal = λ s. s }

abbrev row : AgentRun
row = record {
  tenant = codes "acme";
  event_id = codes "e1";
  occurred_at = 1;
  agent = 2;
  agent_version = none;
  session_id = none;
  repo_hash = none;
  duration_ms = pos 5;
  outcome = 3;
  error_kind = some 3;
  model = none;
  tokens_in = none;
  tokens_out = none;
  cost_micros = none;
  files_touched = none;
  lines_added = none;
  lines_removed = none;
  tool_calls = none;
}

codex_decodes : decode parsers (codes "acme") (codes "codex") ≡ ok row
unfolding decode index kind_index sha256_bytes bytes_eq
codex_decodes = refl

decode_sound_example :
    (w : Wire) × (parsers.unmarshal (codes "codex") ≡ ok w)
    × (row.tenant ≡ codes "acme")
    × (codes "acme" ≢ [])
    × (row.event_id ≡ w.event_id)
    × (w.event_id ≢ [])
    × (get_elem? agents row.agent ≡ some w.agent)
    × (get_elem? outcomes row.outcome ≡ some w.outcome)
    × Names w.error_kind row.error_kind
    × IsHash row.session_id
    × IsHash row.repo_hash
decode_sound_example = decode_sound parsers (codes "acme") (codes "codex") row codex_decodes

-- The one payload has a single number.
payload-IsWide : (s : Bytes) (w : Wire) → parsers.unmarshal s ≡ ok w → IsWide w
payload-IsWide s w h =
    let e : sent s ≡ w = cc in
    rw (← e) (record {
      duration_ms = omega arith;
      tokens_in = tt;
      tokens_out = tt;
      cost_micros = tt;
      files_touched = tt;
      lines_added = tt;
      lines_removed = tt;
      tool_calls = tt;
    })

arguments-Fit_example :
    (insert_columns ≡ map (λ c. c.name) events_columns) × Fit events_columns (arguments row)
arguments-Fit_example =
    arguments-Fit parsers (codes "acme") (codes "codex") row payload-IsWide codex_decodes

parsers-AreLocal : AreLocal parsers
parsers-AreLocal = record { unmarshal_local = λ s e h. cc; parse_time_local = λ s e h. cc }

abbrev never : GoError → Bool
never e = false

abbrev no_agent : GoError
no_agent = record {
  text = codes "decode agent: value outside the contract's enum: vi";
  chain =
      nine_core.Errors.opaque
      ∷ nine_core.Errors.opaque
      ∷ nine_core.Errors.sentinel unknown_value
      ∷ [];
}

vi_fails : decode parsers (codes "acme") (codes "vi") ≡ err no_agent
unfolding decode index bytes_eq
vi_fails = refl

failure_code-decode_example : failure_code never (some no_agent) ≡ (
    if has_unknown_value parsers (codes "acme") (codes "vi")
    then codes "schema"
    else codes "decode")
failure_code-decode_example =
    failure_code-decode parsers parsers-AreLocal never (codes "acme") (codes "vi") no_agent vi_fails
      refl
