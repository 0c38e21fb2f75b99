-- ===== src/Store/Insert/Tests.antt =====
-- A table as the list of its rows, and an event that is delivered twice.
use nine_core.Common.{
  ℕ, List, [], ◌∷◌, none, Bool, true, false, ◌&&◌, ◌||◌, Bool-cases, Bytes, codes, bytes_eq,
  bytes_eq_refl, ◌==◌, if◌then◌else◌, ◌≡◌, refl, arith, subst, inl, inr, pos,
}
use nine_core.Errors.{
  GoError, Result, ok, err, of_sentinel, errors_is, no_rows, not_inserted, is_in,
}
use nine_core.Event.{AgentRun}
use nine_core.Store.Classify.{classify}
use nine_core.Store.Insert.Columns.{Value, text, timestamp, arguments}
use nine_core.Store.Insert.{insert, inserted, handle}
use nine_core.Store.Insert.Replay.{Table, deliver, deliver_again}

-- The key of the table: the tenant, the id and the time.
abbrev Key : Type 0
Key = Bytes × Bytes × ℕ

abbrev key : List Value → Key
key (text tenant ∷ text id ∷ timestamp at ∷ vs) = (tenant, id, at)
key _ = ([], [], 0)

abbrev equal : Key → Key → Bool
equal a b = bytes_eq a.0 b.0 && bytes_eq a.1 b.1 && (a.2 == b.2)

equal_refl : (a : Key) → equal a a ≡ true
equal_refl a = rw (bytes_eq_refl a.0, bytes_eq_refl a.1) (ground arith)

abbrev same_key : List Value → List Value → Bool
same_key a b = equal (key a) (key b)

same_key_refl : (a : List Value) → same_key a a ≡ true
same_key_refl a = equal_refl (key a)

abbrev has : List Value → List (List Value) → Bool
has e [] = false
has e (x ∷ xs) = same_key x e || has e xs

abbrev no_row : GoError
no_row = of_sentinel no_rows (codes "no rows in result set")

abbrev query_row : List Value → List (List Value) → Result Bytes × List (List Value)
query_row e s = if has e s then (err no_row, s) else (ok (key e).1, e ∷ s)

has-query_row : (e : List Value) (s : List (List Value)) → has e (query_row e s).1 ≡ true
has-query_row e s = elim (Bool-cases (has e s)) [
  | inl t ↦ rw t t
  | inr t ↦ rw (t, same_key_refl e) refl
]

blames : Result Bytes → Bool
blames (ok id) = false
blames (err x) = errors_is x not_inserted

foreign :
    (e : List Value) (s : List (List Value)) (x : GoError)
    → (query_row e s).0 ≡ err x
    → errors_is x not_inserted ≡ false
unfolding blames is_in
foreign e s x q = elim (Bool-cases (has e s)) [
  | inl t ↦ subst (λ r. blames r ≡ false) (rw t at q) refl
  | inr t ↦ cc (rw t at q)
]

keeps :
    (e : List Value) (s : List (List Value)) (k : List Value)
    → has k s ≡ true
    → has k (query_row e s).1 ≡ true
keeps e s k h = elim (Bool-cases (has e s)) [
  | inl t ↦ rw t h
  | inr t ↦ elim (Bool-cases (same_key e k)) [ inl a ↦ rw (t, a) refl | inr a ↦ rw (t, a) h ]
]

untouched : (e : List Value) (s : List (List Value)) → has e s ≡ true → (query_row e s).1 ≡ s
untouched e s h = rw h refl

abbrev table : Table query_row
table = record {
  rows = λ s. s;
  HasKey = λ s e. has e s ≡ true;
  returned = λ e s id q. has-query_row e s;
  conflicting = λ e s x q n. has-query_row e s;
  violated = λ e s x g q f c. has-query_row e s;
  foreign = foreign;
  keeps = keeps;
  untouched = untouched;
}

abbrev event : Bytes → AgentRun
event id = record {
  tenant = codes "acme";
  event_id = id;
  occurred_at = 5;
  agent = 0;
  agent_version = none;
  session_id = none;
  repo_hash = none;
  duration_ms = pos 1;
  outcome = 0;
  error_kind = none;
  model = none;
  tokens_in = none;
  tokens_out = none;
  cost_micros = none;
  files_touched = none;
  lines_added = none;
  lines_removed = none;
  tool_calls = none;
}

-- The second of them repeats the first.
abbrev three : List AgentRun
three = event (codes "e1") ∷ event (codes "e1") ∷ event (codes "e2") ∷ []

abbrev never : GoError → Bool
never e = false

two_rows :
    deliver never query_row table three []
    ≡ arguments (event (codes "e2")) ∷ arguments (event (codes "e1")) ∷ []
unfolding arguments handle insert inserted bytes_eq is_in
two_rows = refl

deliver_again_example :
    deliver never query_row table three (deliver never query_row table three [])
    ≡ deliver never query_row table three []
unfolding arguments handle insert inserted bytes_eq is_in classify
deliver_again_example = deliver_again never query_row table three [] (refl, (refl, (refl, tt)))
