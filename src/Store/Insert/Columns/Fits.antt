-- ===== src/Store/Insert/Columns/Fits.antt =====
-- internal/store/store.go: the row of a record that decodes fits the columns of the table.
use nine_core.Common.{
  ℕ, zero, suc, ◌<◌, ◌^◌, List, [], ◌∷◌, Option, none, some, true, Bytes, ℤ, pos, negsuc, int_limit,
  map, length, get_elem?, ◌≡◌, refl, arith,
}
use nine_core.Errors.{ok}
use nine_core.Event.{Wire, AgentRun, Parsers, agents, outcomes, error_kinds, decode}
use nine_core.Event.Rows.{IsHash, Names, decode-Parts}
use nine_core.Store.Insert.Columns.{
  Value, null, text, timestamp, integer, bytes, Kind, text_column, timestamptz, smallint, bigint,
  bytea, Column, optional, sha256, events_columns, insert_columns, nullable, index_value, arguments,
}

-- A signed integer in two's complement that has one more bit than the exponent of `limit`.
abbrev IsBelow : ℕ → ℤ → Type 0
IsBelow limit (pos n) = n < limit
IsBelow limit (negsuc n) = n < limit

abbrev IsInt64 : ℤ → Type 0
IsInt64 = IsBelow int_limit

-- The number of bytes that a column asks for.
abbrev HasOctets : Option ℕ → Bytes → Type 0
HasOctets none b = Unit
HasOctets (some n) b = length b ≡ n

-- A value is of a column's type, and in its range.
abbrev IsOfKind : Kind → Option ℕ → Value → Type 0
IsOfKind text_column n (text s) = Unit
IsOfKind timestamptz n (timestamp t) = Unit
IsOfKind smallint n (integer i) = IsBelow (2 ^ 15) i
IsOfKind bigint n (integer i) = IsInt64 i
IsOfKind bytea n (bytes b) = HasOctets n b
IsOfKind _ n _ = ⊥

-- A column takes a value.
abbrev Takes : Column → Value → Type 0
Takes c null = c.is_nullable ≡ true
Takes c v = IsOfKind c.kind c.octets v

-- Each column takes the value at its place, and there are as many of both.
abbrev pub Fit : List Column → List Value → Type 0
Fit [] [] = Unit
Fit (c ∷ cs) (v ∷ vs) = Takes c v × Fit cs vs
Fit _ _ = ⊥

-- The integers of a payload are 64-bit ones.
abbrev IsOptional64 : Option ℤ → Type 0
IsOptional64 none = Unit
IsOptional64 (some i) = IsInt64 i

pub record IsWide (w : Wire) : Type 0 where
  pub duration_ms : IsInt64 w.duration_ms
  pub tokens_in : IsOptional64 w.tokens_in
  pub tokens_out : IsOptional64 w.tokens_out
  pub cost_micros : IsOptional64 w.cost_micros
  pub files_touched : IsOptional64 w.files_touched
  pub lines_added : IsOptional64 w.lines_added
  pub lines_removed : IsOptional64 w.lines_removed
  pub tool_calls : IsOptional64 w.tool_calls

get_elem?-lt : {A : Type 0} (xs : List A) (i : ℕ) {a : A} → get_elem? xs i ≡ some a → i < length xs
get_elem?-lt [] i h = cc
get_elem?-lt (x ∷ xs) zero h = omega arith
get_elem?-lt (x ∷ xs) (suc i) h = omega (arith, get_elem?-lt xs i h)

-- What may be absent, in a column of any name.
text-Takes : (s : Option Bytes) → Takes (optional [] text_column) (nullable text s)
text-Takes none = refl
text-Takes (some s) = tt

bigint-Takes : (i : Option ℤ) → IsOptional64 i → Takes (optional [] bigint) (nullable integer i)
bigint-Takes none h = refl
bigint-Takes (some i) h = h

sha256-Takes : (b : Option Bytes) → IsHash b → Takes (sha256 []) (nullable bytes b)
sha256-Takes none h = refl
sha256-Takes (some b) h = h.0

kind-Takes :
    (v : Option Bytes) (k : Option ℕ)
    → Names v k
    → Takes (optional [] smallint) (nullable index_value k)
kind-Takes v none h = refl
kind-Takes none (some k) h = cc
kind-Takes (some v) (some k) h = let l = get_elem?-lt error_kinds k h in omega (arith, l)

-- What one column needs, and what the columns behind it do.
infixr 4 ◌▸◌
abbrev ◌▸◌ {ℓ κ} : {A : Type ℓ} {B : Type κ} → A → B → A × B
a ▸ b = (a, b)

-- `Insert` names the columns of the table in their order, and the row of a record that decodes has
-- for each of them a value of its type: a value where there has to be one, an integer in the
-- column's range, and 32 bytes for a hash, if the decoder of the payload reads 64-bit integers.
pub arguments-Fit :
    (p : Parsers) (key payload : Bytes) (r : AgentRun)
    → ((t : Bytes) (w : Wire) → p.unmarshal t ≡ ok w → IsWide w)
    → decode p key payload ≡ ok r
    → (insert_columns ≡ map (λ c. c.name) events_columns) × Fit events_columns (arguments r)
unfolding arguments
arguments-Fit p key payload r wide h =
    let d = decode-Parts p key payload r h in
    let w = d.wire in
    let i = wide payload w d.unmarshalled in
    let agent = get_elem?-lt agents d.agent d.agent_named in
    let outcome = get_elem?-lt outcomes d.outcome d.outcome_named in
    rw d.is_row (
      refl
      ▸ tt
      ▸ tt
      ▸ tt
      ▸ omega (arith, agent)
      ▸ text-Takes w.agent_version
      ▸ sha256-Takes d.session d.session_hash
      ▸ sha256-Takes d.repo d.repo_hash
      ▸ i.duration_ms
      ▸ omega (arith, outcome)
      ▸ kind-Takes w.error_kind d.kind d.kind_named
      ▸ text-Takes w.model
      ▸ bigint-Takes w.tokens_in i.tokens_in
      ▸ bigint-Takes w.tokens_out i.tokens_out
      ▸ bigint-Takes w.cost_micros i.cost_micros
      ▸ bigint-Takes w.files_touched i.files_touched
      ▸ bigint-Takes w.lines_added i.lines_added
      ▸ bigint-Takes w.lines_removed i.lines_removed
      ▸ bigint-Takes w.tool_calls i.tool_calls
      ▸ tt)
