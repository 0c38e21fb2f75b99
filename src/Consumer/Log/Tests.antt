-- ===== src/Consumer/Log/Tests.antt =====
-- A log that two polls fetch, one record of which another member of the group commits between them,
-- and two runs that leave a gap: one with a delay, and one whose context ends.
use nine_core.Common.{
  ◌⊎◌, Option, some, ℕ, zero, suc, ◌+◌, ◌≤◌, List, [], ◌∷◌, none, false, Bytes, codes, pos, ltb,
  if◌then◌else◌, ◌≡◌, refl, arith, take, drop, inl, inr,
}
use nine_core.Errors.{GoError}
use nine_core.Pipeline.{Outcome, done}
use nine_core.Kafka.{Record}
use nine_core.Consumer.Setup.{Config, World, Machine, Fetches, decoded, contains, put}
use nine_core.Consumer.Prefix.{on}
use nine_core.Consumer.Offsets.{Ascends}
use nine_core.Consumer.{
  ripe, hold, forward, answer, settle, one, judge, look, next, process_from, process,
  commit_offsets, commit, conclude, batch_body, batch,
}
use nine_core.Consumer.Run.{
  resume_ripe, poll_deadline, poll_context_ended, deadline_passed, fetch, after_poll, round, run,
  ripened, unripe, soonest,
}
use nine_core.Consumer.Shutdown.{Ending}
use nine_core.Consumer.Log.{Holds, Client, Context, IsGapless, committed_records}
use nine_core.Consumer.Log.Reach.{Reaches}
use nine_core.Consumer.Log.Loop.{run-IsGapless}

abbrev at_offset : ℕ → ℕ → ℕ → Record
at_offset p k at = record {
  topic = codes "events";
  partition = p;
  offset = k;
  timestamp = at;
  key = codes "acme";
  value = [];
  headers = [];
}

abbrev entries : ℕ → List Record
entries zero = at_offset 0 5 90 ∷ at_offset 0 6 90 ∷ at_offset 0 7 90 ∷ at_offset 0 9 90 ∷ []
entries (suc p) = []

data Place : Type 0 where
  first second last : Place

abbrev serve : Place → Fetches × Place
serve first = (record { closed = false; records = take 2 (entries 0) }, second)
serve second = (record { closed = false; records = drop 3 (entries 0) }, last)
serve last = (record { closed = false; records = [] }, last)

abbrev reading : World Bytes
reading = record {
  State = Place;
  decode = λ k v. decoded v;
  handle = λ m s. ((done, none), s);
  sink = none;
  hook = none;
  now = λ s. (100, s);
  cancelled = λ s. (false, s);
  poll = λ n d s. serve s;
  commit_records = λ rs s. (none, s);
}

abbrev with_delay : ℕ → Config
with_delay d = record {
  brokers = codes "localhost:19092" ∷ [];
  group = codes "core";
  topic = codes "events";
  max_poll = pos 100;
  session = pos 0;
  commit_timeout = pos 0;
  delay = pos d;
}

abbrev place : Place → ℕ → ℕ
place s (suc p) = 0
place first zero = 0
place second zero = 2
place last zero = 4

-- The third record is committed elsewhere by the time of the second poll.
abbrev elsewhere : Place → ℕ → ℕ
elsewhere s (suc p) = 0
elsewhere first zero = 0
elsewhere second zero = 0
elsewhere last zero = 3

abbrev FetchesInARow : Place → ℕ → Type 0
FetchesInARow s p =
    (from : ℕ) × (many : ℕ) × ((from ≤ place s p) ⊎ (from ≤ elsewhere (serve s).1 p))
    × (on p (serve s).0.records ≡ take many (drop from (entries p)))
    × (place (serve s).1 p ≤ from + many)

in_a_row : (s : Place) (p : ℕ) → FetchesInARow s p
in_a_row first zero = (0, 2, inl (omega arith), refl, omega arith)
in_a_row second zero = (3, 1, inr (omega arith), refl, omega arith)
in_a_row last zero = (4, 0, inl (omega arith), refl, omega arith)
in_a_row first (suc p) = (0, 0, inl (omega arith), ground arith, omega arith)
in_a_row second (suc p) = (0, 0, inl (omega arith), ground arith, omega arith)
in_a_row last (suc p) = (0, 0, inl (omega arith), refl, omega arith)

elsewhere_grows : (s : Place) (p : ℕ) → elsewhere s p ≤ elsewhere (serve s).1 p
elsewhere_grows first zero = omega arith
elsewhere_grows second zero = omega arith
elsewhere_grows last zero = omega arith
elsewhere_grows first (suc p) = omega arith
elsewhere_grows second (suc p) = omega arith
elsewhere_grows last (suc p) = omega arith

entries-Ascends : (p : ℕ) → Ascends (entries p)
entries-Ascends zero = ground arith
entries-Ascends (suc p) = tt

no_sink :
    (send : Record → Outcome → Option GoError → Place → Option GoError × Place)
    → reading.sink ≡ some send
    → (r : Record) (o : Outcome) (e : Option GoError) (s : Place) (p : ℕ)
    → Holds place elsewhere s (send r o e s).1 p
no_sink send q r o e s p = cc

no_hook :
    (hook : List Record → Place → Option GoError × Place)
    → reading.hook ≡ some hook
    → (rs : List Record) (s : Place) (p : ℕ) → Holds place elsewhere s (hook rs s).1 p
no_hook hook q rs s p = cc

abbrev client : Client reading
client = record {
  log = entries;
  ascends = entries-Ascends;
  position = place;
  others = elsewhere;
  fetches = λ n d s p. in_a_row s p;
  poll_grows = λ n d s p. elsewhere_grows s p;
  handle_keeps = λ m s p. (omega arith, omega arith);
  sink_keeps = no_sink;
  hook_keeps = no_hook;
  now_keeps = λ s p. (omega arith, omega arith);
  cancelled_keeps = λ s p. (omega arith, omega arith);
  commit_keeps = λ rs s p. (omega arith, omega arith);
}

never_ends : Ending reading
never_ends = record {
  HasEnded = λ s. ⊥;
  over = λ s h. absurd h;
  handle_keeps = λ m s h. h;
  sink_keeps = λ send q r o e s h. h;
  hook_keeps = λ hook q rs s h. h;
  now_keeps = λ s h. h;
  cancelled_keeps = λ s h. h;
  poll_keeps = λ n d s h. h;
  commit_keeps = λ rs s h. h;
}

context : Context reading
context = record { ending = never_ends; begins = λ s q. cc }

abbrev at_first : Machine Place
at_first = record { waiting = []; trace = []; world = first }

nothing_before : Reaches reading (with_delay 0) client context at_first
nothing_before zero y o = inl o
nothing_before (suc p) y o = inl o

abbrev behind : Machine Place
behind = (run reading (with_delay 0) 3 at_first).1

run-IsGapless_example : IsGapless entries (elsewhere behind.world) behind.trace
run-IsGapless_example =
    run-IsGapless reading (with_delay 0) client context refl 3 at_first (refl, tt, nothing_before)
      refl

all_three :
    committed_records (run reading (with_delay 0) 3 at_first).1.trace
    ≡ at_offset 0 9 90 ∷ at_offset 0 5 90 ∷ at_offset 0 6 90 ∷ []
unfolding run round resume_ripe ripened unripe poll_deadline soonest poll_context_ended
    deadline_passed fetch after_poll batch batch_body process process_from next look contains ripe
    one answer settle forward judge commit commit_offsets conclude
all_three = refl

-- Partition 0 waits for its record while the second poll fetches the first record of partition 1.
abbrev young : Record
young = at_offset 0 5 90

abbrev skipped : Record
skipped = at_offset 1 7 10

abbrev later_on : Record
later_on = at_offset 1 8 10

abbrev two_partitions : ℕ → List Record
two_partitions zero = young ∷ []
two_partitions (suc zero) = skipped ∷ later_on ∷ []
two_partitions (suc (suc p)) = []

abbrev turn : ℕ → List Record
turn zero = young ∷ []
turn (suc zero) = skipped ∷ []
turn (suc (suc n)) = young ∷ later_on ∷ []

-- Each poll takes a while.
abbrev delaying : World Bytes
delaying = record {
  State = ℕ;
  decode = λ k v. decoded v;
  handle = λ m s. ((done, none), s);
  sink = none;
  hook = none;
  now = λ s. (if ltb s 2 then 100 else 200, s);
  cancelled = λ s. (false, s);
  poll = λ n d s. (record { closed = false; records = turn s }, suc s);
  commit_records = λ rs s. (none, s);
}

-- With a delay a commit steps over a record that was discarded.
nothing_else : {A : Type 0} → A ⊎ ⊥ → A
nothing_else (inl a) = a
nothing_else (inr e) = absurd e

steps_over :
    IsGapless two_partitions
      (λ p. 0)
      (run delaying (with_delay 20) 3 (record { waiting = []; trace = []; world = 0 })).1.trace
    → ⊥
unfolding run round resume_ripe ripened unripe poll_deadline soonest poll_context_ended
    deadline_passed fetch after_poll batch batch_body process process_from next look contains ripe
    hold put one answer settle forward judge commit commit_offsets conclude
steps_over g =
    ground (arith, nothing_else (g.0 later_on skipped (inr (inl refl)) (inl refl) (omega arith)))

-- The context ends between the two looks behind the first poll.
abbrev ending_late : World Bytes
ending_late = record {
  State = ℕ;
  decode = λ k v. decoded v;
  handle = λ m s. ((done, none), s);
  sink = none;
  hook = none;
  now = λ s. (100, s);
  cancelled = λ s. (ltb 1 s, suc s);
  poll = λ n d s.
      (record { closed = false; records = (if ltb s 1 then skipped else later_on) ∷ [] }, suc s);
  commit_records = λ rs s. (none, s);
}

-- What the first poll fetched is thrown away, and the round that follows commits past it.
ends_between :
    IsGapless two_partitions
      (λ p. 0)
      (run ending_late (with_delay 0) 3 (record { waiting = []; trace = []; world = 0 })).1.trace
    → ⊥
unfolding run round resume_ripe ripened unripe poll_deadline soonest poll_context_ended
    deadline_passed fetch after_poll batch batch_body process process_from next look contains ripe
    hold put one answer settle forward judge commit commit_offsets conclude
ends_between g =
    ground (arith, nothing_else (g.0 later_on skipped (inl refl) (inl refl) (omega arith)))
