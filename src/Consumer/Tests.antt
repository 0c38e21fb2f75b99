-- ===== src/Consumer/Tests.antt =====
-- Runs of the consumer in a small world, and the theorems at concrete inputs.
use nine_core.Common.{
  ℕ, zero, suc, List, [], ◌∷◌, ◌++◌, none, some, true, false, inl, inr, ◌⊎◌, Bytes, codes, ℤ, pos,
  ◌≡◌, ◌≢◌, refl, arith, All, Occurs,
}
use nine_core.Pipeline.{Outcome, done, retry, fatal}
use nine_core.Kafka.{Record}
use nine_core.Consumer.{
  ripe, hold, forward, answer, settle, one, judge, look, next, process_from, process, batch,
}
use nine_core.Consumer.Setup.{
  Config, World, Machine, Fetches, decoded, Call, rebalance_allowed, polled, contains, put,
  with_defaults, forget,
}
use nine_core.Consumer.Run.{
  resume_ripe, poll_deadline, round, soonest, ripened, unripe, deadline_passed,
}
use nine_core.Consumer.Deadline.{AreLate, IsBound, poll_deadline-IsBound}
use nine_core.Consumer.Prefix.{on, IsPrefixOf, process-IsPrefixOf}
use nine_core.Consumer.Accounted.{IsAccounted, process-AllAccounted}
use nine_core.Consumer.Offsets.{AscendsByPartition, committed_covers}
use nine_core.Consumer.Order.{outer, CommitCalls, batch-CommitCalls}
use nine_core.Consumer.Rounds.{round_discards, resumed_state, polled_state, fetched, bound}

-- The first byte of a message says what its handler answers.
abbrev reply : Bytes → Outcome
reply [] = done
reply (zero ∷ s) = done
reply (suc zero ∷ s) = retry
reply (suc (suc c) ∷ s) = fatal

abbrev kept : ℕ → Bytes → Record
kept p v = record {
  topic = codes "events";
  partition = p;
  offset = 7;
  timestamp = 90;
  key = codes "acme";
  value = v;
  headers = [];
}

abbrev early : Record
early = record (kept 0 []) { offset = 5; timestamp = 10 }

abbrev failing : Record
failing = kept 1 (1 ∷ [])

abbrev late : Record
late = record (kept 0 []) { offset = 6; timestamp = 95 }

abbrev three : List Record
three = early ∷ failing ∷ late ∷ []

-- The clock stands at 100; every call succeeds.
abbrev calm : World Bytes
calm = record {
  State = ℕ;
  decode = λ k v. decoded v;
  handle = λ m s. ((reply m, none), s);
  sink = some (λ r o e s. (none, suc s));
  hook = some (λ rs s. (none, s));
  now = λ s. (100, s);
  cancelled = λ s. (false, s);
  poll = λ n d s. (record { closed = false; records = three }, s);
  commit_records = λ rs s. (none, s);
}

abbrev delayed : ℤ → Config
delayed d = record {
  brokers = codes "localhost:19092" ∷ [];
  group = codes "core";
  topic = [];
  max_poll = pos 0;
  session = pos 0;
  commit_timeout = pos 0;
  delay = d;
}

abbrev idle : Machine ℕ
idle = record { waiting = []; trace = []; world = 0 }

abbrev waiting_until : ℕ → Machine ℕ
waiting_until at = record idle { waiting = (0, at) ∷ [] }

defaults : (with_defaults (delayed (pos 0))).max_poll ≡ pos 100
unfolding with_defaults
defaults = refl

forgotten : forget (1 ∷ []) ((0, 5) ∷ (1, 6) ∷ []) ≡ (0, 5) ∷ []
unfolding forget
forgotten = refl

all_committed : (process calm (delayed (pos 0)) three idle).0 ≡ (three, none)
unfolding process process_from next look ripe contains one answer settle forward judge
all_committed = refl

-- With a delay of 20 the first record is ripe, and both partitions wait for their next one.
two_held :
    ((process calm (delayed (pos 20)) three idle).0 ≡ (early ∷ [], none))
    × ((process calm (delayed (pos 20)) three idle).1.waiting ≡ (1, 110) ∷ (0, 115) ∷ [])
unfolding process process_from next look ripe contains one answer settle forward judge hold put
two_held = (refl, refl)

ascending : AscendsByPartition three
ascending p = ground arith

late_committed : Occurs late (process calm (delayed (pos 0)) three idle).0.0
unfolding process process_from next look ripe contains one answer settle forward judge
late_committed = inr (inr (inl refl))

committed_covers_example : Occurs early (process calm (delayed (pos 0)) three idle).0.0
committed_covers_example =
    committed_covers calm (delayed (pos 0)) three idle late early ascending late_committed
      (inl refl) refl (omega arith)

process-IsPrefixOf_example :
    IsPrefixOf (on 0 (process calm (delayed (pos 20)) three idle).0.0) (on 0 three)
process-IsPrefixOf_example = process-IsPrefixOf calm (delayed (pos 20)) three idle 0

process-AllAccounted_example :
    All
      (IsAccounted (process calm (delayed (pos 0)) three idle).1.trace)
      (process calm (delayed (pos 0)) three idle).0.0
process-AllAccounted_example = process-AllAccounted calm (delayed (pos 0)) three idle

abbrev fetched_three : Fetches
fetched_three = record { closed = false; records = three }

batch-CommitCalls_example :
    (cs : List Call) × ((fetched_three.closed ≡ true) × (cs ≡ [])
      ⊎ (fetched_three.closed ≡ false)
        × CommitCalls calm.hook (process calm (delayed (pos 0)) fetched_three.records idle).0.0 cs)
    × (outer (batch calm (delayed (pos 0)) fetched_three idle).1.trace
        ≡ rebalance_allowed ∷ cs ++ outer idle.trace)
batch-CommitCalls_example = batch-CommitCalls calm (delayed (pos 0)) fetched_three idle

still_waits : soonest 0 (resumed_state calm (delayed (pos 20)) (waiting_until 200)).waiting ≢ 0
unfolding resume_ripe soonest ripened unripe
still_waits h = absurd (omega arith)

-- One partition waits, and what the poll fetched of the others is dropped.
round_discards_example :
    ((round calm (delayed (pos 20)) (waiting_until 200)).0 ≡ none)
    × ((round calm (delayed (pos 20)) (waiting_until 200)).1.waiting
        ≡ (resumed_state calm (delayed (pos 20)) (waiting_until 200)).waiting)
    × ((round calm (delayed (pos 20)) (waiting_until 200)).1.trace
        ≡ rebalance_allowed
          ∷ polled (fetched calm (delayed (pos 20)) (waiting_until 200))
          ∷ (resumed_state calm (delayed (pos 20)) (waiting_until 200)).trace)
round_discards_example = round_discards calm (delayed (pos 20)) (waiting_until 200) still_waits refl

abbrev idle_end : Machine ℕ
idle_end =
    (deadline_passed calm (delayed (pos 0)) (bound calm (delayed (pos 0)) idle)
      (polled_state calm (delayed (pos 0)) idle)).1

-- Two partitions wait, and the clock stands at 100.
abbrev both_wait : Machine ℕ
both_wait = record idle { waiting = (0, 900000000) ∷ (1, 30000000) ∷ [] }

both-AreLate : AreLate both_wait.waiting
both-AreLate = (omega arith, (omega arith, tt))

poll_deadline-IsBound_example :
    IsBound calm (delayed (pos 20)) both_wait (poll_deadline calm (delayed (pos 20)) both_wait).0
poll_deadline-IsBound_example = poll_deadline-IsBound calm (delayed (pos 20)) both_wait both-AreLate

until_the_soonest : (poll_deadline calm (delayed (pos 20)) both_wait).0 ≡ some 29999900
unfolding poll_deadline soonest
until_the_soonest = refl
