-- ===== src/Core/Tests.antt =====
-- A process with one poll, of a record that decodes and of one that does not.
use nine_core.Common.{
  ◌⊎◌, ℕ, zero, suc, ◌+◌, ◌≤◌, Option, some, take, drop, arith, subst, List, [], ◌∷◌, none, false,
  Bytes, codes, bytes_eq, ◌≡◌, refl, inl, inr, Occurs, All, pos,
}
use nine_core.Errors.{GoError, ok, err, plain, is_in, errors_is, not_inserted, Result-cases}
use nine_core.Kafka.{Record}
use nine_core.Event.{AgentRun, Wire, Parsers, decode, index, index_from, kind_index, sha256_bytes}
use nine_core.Consumer.Setup.{Machine, Config, committed, new, with_defaults, contains}
use nine_core.Consumer.{
  ripe, forward, answer, settle, one, judge, look, next, process_from, process, commit_offsets,
  commit, conclude, batch_body, batch,
}
use nine_core.Consumer.Run.{
  resume_ripe, poll_deadline, poll_context_ended, deadline_passed, fetch, after_poll, round, run,
  ripened, unripe, soonest,
}
use nine_core.Retry.Marks.{TimeText, build, build_on, read_time, read, poison_marks, apply}
use nine_core.Retry.Forwarder
use nine_core.Retry.Marks
use nine_core.Retry.Forwarder.{route, event_id, outgoing}
use nine_core.Store.Insert.{handle, insert, inserted}
use nine_core.Store.Classify.{classify, failure_code}
use nine_core.Core.{
  naming, broker, wired, Process, Platform, split, env, delay, configured, settings, attempt, core,
}
use nine_core.Core.Settings.{configured_accepted}
use nine_core.Store.Insert.Columns.{Value}
use nine_core.Core.Durable.{Facts, Keeps, Durable}
use nine_core.Core.Guarantee.{IsSettled, committed-IsSettled}
use nine_core.Core.Covered.{below_committed-IsSettled}
use nine_core.Consumer.Prefix.{on}
use nine_core.Consumer.Offsets.{Ascends}
use nine_core.Consumer.Shutdown.{Ending}
use nine_core.Consumer.Log.{Holds, IsAmong, Client, Context}
use nine_core.Pipeline.{Outcome}

abbrev sent : Bytes → Wire
sent agent = record {
  event_id = codes "e1";
  agent = agent;
  agent_version = none;
  session_id = none;
  repo_hash = none;
  occurred_at = codes "now";
  duration_ms = pos 5;
  outcome = codes "timeout";
  error_kind = none;
  model = none;
  tokens_in = none;
  tokens_out = none;
  cost_micros = none;
  files_touched = none;
  lines_added = none;
  lines_removed = none;
  tool_calls = none;
}

abbrev parsers : Parsers
parsers = record { unmarshal = λ s. ok (sent s); parse_time = λ s. ok 1; hex_refusal = λ s. s }

abbrev no_time : TimeText
no_time = record { format = λ t. codes "now"; parse = λ s. none; refusal = λ s. s }

-- The rows of the table, what was produced, and how often the client polled.
record Disk : Type 0 where
  rows : List (List Value)
  log : List Record
  polls : ℕ

abbrev at_offset : ℕ → Bytes → Record
at_offset k agent = record {
  topic = codes "events";
  partition = 0;
  offset = k;
  timestamp = 0;
  key = codes "acme";
  value = agent;
  headers = [];
}

abbrev known : Record
known = at_offset 3 (codes "codex")

abbrev unknown_agent : Record
unknown_agent = at_offset 4 (codes "nobody")

abbrev two : List Record
two = known ∷ unknown_agent ∷ []

-- Each poll gives the next record.
abbrev served : ℕ → List Record
served zero = known ∷ []
served (suc zero) = unknown_agent ∷ []
served (suc (suc n)) = []

abbrev disk : Platform
disk = record {
  State = Disk;
  parsers = parsers;
  times = no_time;
  event_id_in = λ s. none;
  safe_to_retry = λ e. false;
  open_pool = λ dsn s. (ok tt, s);
  ping = λ s. (ok tt, s);
  query_row = λ v s. (ok (codes "e1"), record s { rows = v ∷ s.rows });
  new_producer = λ bs s. (ok tt, s);
  produce = λ r s. (none, record s { log = r ∷ s.log });
  join = λ c s. (ok tt, record s { polls = 0 });
  poll = λ n d s.
      (record { closed = false; records = served s.polls }, record s { polls = suc s.polls });
  commit_records = λ rs s. (none, s);
  now = λ s. (100, s);
  cancelled = λ s. (false, s);
}

abbrev facts : Facts Disk
facts = record { Recorded = λ s e. Occurs e s.rows; Sent = λ s r. Occurs r s.log }

same : (s : Disk) → Keeps facts s s
same s = (λ e h. h, λ r h. h)

never_refuses :
    (e : List Value) (s : Disk) (x : GoError)
    → (disk.query_row e s).0 ≡ err x
    → errors_is x not_inserted ≡ false
never_refuses e s x q = cc

abbrev durable : Durable disk
durable = record {
  facts = facts;
  returned = λ e s id q. inl refl;
  conflicting = λ e s x q n. inl refl;
  violated = λ e s x g q f c. inl refl;
  foreign = never_refuses;
  acknowledged = λ r s q. inl refl;
  query_row_keeps = λ e s. (λ x h. inr h, λ r h. h);
  produce_keeps = λ r s. (λ e h. h, λ x h. inr h);
  poll_keeps = λ n d s. same s;
  commit_keeps = λ rs s. same s;
  now_keeps = λ s. same s;
  cancelled_keeps = λ s. same s;
}

abbrev os : Process
os = record {
  getenv = λ k. [];
  parse_duration = λ s. err (plain (codes "invalid duration"));
  duration_text = λ d. [];
}

abbrev empty : Disk
empty = record { rows = []; log = []; polls = 0 }

splits : split b',' (codes "a,b,") ≡ codes "a" ∷ codes "b" ∷ [] ∷ []
unfolding split
splits = refl

last_committed : Occurs (committed (unknown_agent ∷ []) none) (core disk os 2 empty).1.trace
unfolding core nine_core.Retry.Forwarder.new_forwarder attempt configured delay env bytes_eq split
    new with_defaults run round resume_ripe ripened unripe poll_deadline soonest poll_context_ended
    deadline_passed fetch after_poll batch batch_body process process_from next look contains ripe
    one answer settle forward judge commit commit_offsets conclude decode index kind_index
    sha256_bytes handle insert inserted classify index_from nine_core.Retry.Forwarder.forward route
    event_id read failure_code poison_marks outgoing apply build nine_core.Retry.Marks.round
    read_time build_on is_in
last_committed = inr (inl refl)

committed-IsSettled_example :
    All (IsSettled disk durable (core disk os 2 empty).1.world) (unknown_agent ∷ [])
committed-IsSettled_example =
    committed-IsSettled disk durable os 2 empty (unknown_agent ∷ []) none last_committed

abbrev log_of : ℕ → List Record
log_of zero = two
log_of (suc p) = []

abbrev place : Disk → ℕ → ℕ
place s zero = s.polls
place s (suc p) = 0

abbrev FetchesInARow : ℕ → ℕ → Type 0
FetchesInARow n p =
    (from : ℕ) × (many : ℕ) × ((from ≤ place (record empty { polls = n }) p) ⊎ (from ≤ 0))
    × (on p (served n) ≡ take many (drop from (log_of p)))
    × (place (record empty { polls = suc n }) p ≤ from + many)

in_a_row : (n p : ℕ) → FetchesInARow n p
in_a_row zero zero = (0, 1, inl (omega arith), refl, omega arith)
in_a_row (suc zero) zero = (1, 1, inl (omega arith), refl, omega arith)
in_a_row (suc (suc n)) zero = (2, suc n, inl (omega arith), refl, omega arith)
in_a_row zero (suc p) = (0, 0, inl (omega arith), ground arith, omega arith)
in_a_row (suc zero) (suc p) = (0, 0, inl (omega arith), ground arith, omega arith)
in_a_row (suc (suc n)) (suc p) = (0, 0, inl (omega arith), refl, omega arith)

log_of-Ascends : (p : ℕ) → Ascends (log_of p)
log_of-Ascends zero = ground arith
log_of-Ascends (suc p) = tt

-- The only member of its group.
abbrev nowhere : Disk → ℕ → ℕ
nowhere s p = 0

place-Holds : (s s' : Disk) (p : ℕ) → s'.polls ≡ s.polls → Holds place nowhere s s' p
place-Holds s s' zero h = (omega (arith, h), omega arith)
place-Holds s s' (suc p) h = (omega arith, omega arith)

handle-polls : (e : AgentRun) (s : Disk) → ((wired disk).handle e s).1.polls ≡ s.polls
unfolding handle insert
handle-polls e s = refl

forward-polls :
    (r : Record) (o : Outcome) (e : Option GoError) (s : Disk)
    → (nine_core.Retry.Forwarder.forward (naming disk) (broker disk) r o e s).1.polls ≡ s.polls
unfolding nine_core.Retry.Forwarder.forward
forward-polls r o e s = elim (Result-cases (route (naming disk) r o e 100)) [
  | inl (to, q) ↦ rw (q, nine_core.Retry.Forwarder.forward) refl
  | inr (x, q) ↦ rw (q, nine_core.Retry.Forwarder.forward) refl
]

sink-polls :
    (send : Record → Outcome → Option GoError → Disk → Option GoError × Disk)
    → (wired disk).sink ≡ some send
    → (r : Record) (o : Outcome) (e : Option GoError) (s : Disk) → (send r o e s).1.polls ≡ s.polls
sink-polls send q r o e s =
    let same : nine_core.Retry.Forwarder.forward (naming disk) (broker disk) ≡ send = cc in
    subst (λ f. (f r o e s).1.polls ≡ s.polls) same (forward-polls r o e s)

no_hook :
    (hook : List Record → Disk → Option GoError × Disk)
    → (wired disk).hook ≡ some hook
    → (rs : List Record) (s : Disk) (p : ℕ) → Holds place nowhere s (hook rs s).1 p
no_hook hook q rs s p = cc

abbrev client : Client (wired disk)
client = record {
  log = log_of;
  ascends = log_of-Ascends;
  position = place;
  others = nowhere;
  poll_grows = λ n d s p. omega arith;
  fetches = λ n d s p. in_a_row s.polls p;
  handle_keeps = λ m s p. place-Holds s ((wired disk).handle m s).1 p (handle-polls m s);
  sink_keeps = λ send q r o e s p. place-Holds s (send r o e s).1 p (sink-polls send q r o e s);
  hook_keeps = no_hook;
  now_keeps = λ s p. place-Holds s s p refl;
  cancelled_keeps = λ s p. place-Holds s s p refl;
  commit_keeps = λ rs s p. place-Holds s s p refl;
}

never_ends : Ending (wired disk)
never_ends = record {
  HasEnded = λ s. ⊥;
  over = λ s h. absurd h;
  handle_keeps = λ m s h. h;
  sink_keeps = λ send q r o e s h. h;
  hook_keeps = λ hook q rs s h. h;
  now_keeps = λ s h. h;
  cancelled_keeps = λ s h. h;
  poll_keeps = λ n d s h. h;
  commit_keeps = λ rs s h. h;
}

context : Context (wired disk)
context = record { ending = never_ends; begins = λ s q. cc }

-- A consumer that joins has polled nothing yet.
joined : (cfg : Config) (s : Disk) (q : ℕ) → place (disk.join cfg s).1 q ≡ 0
joined cfg s zero = refl
joined cfg s (suc q) = refl

abbrev ran_two : Machine Disk
ran_two = (core disk os 2 empty).1

below_committed-IsSettled_example :
    IsSettled disk durable ran_two.world known ⊎ IsAmong 0 (log_of 0) known
below_committed-IsSettled_example =
    below_committed-IsSettled disk durable client context joined os 2 empty refl refl
      (unknown_agent ∷ []) none unknown_agent known last_committed (inl refl) (inl refl)
      (omega arith)

abbrev by_default : Config
by_default = settings os (pos 0)

configured_accepted_example :
    ((new by_default empty).0 ≡ none) × ((n : ℕ) × (by_default.delay ≡ pos n))
unfolding configured delay bytes_eq
configured_accepted_example = configured_accepted os by_default empty refl
