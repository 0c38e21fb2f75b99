-- ===== src/Consumer/Ripeness/Tests.antt =====
-- A handler that notices a record which comes too early.
use nine_core.Common.{
  ℕ, ◌+◌, ◌≤◌, [], ◌∷◌, Bool, false, none, Bytes, codes, pos, ltb, ◌≡◌, ◌||◌, refl, ap, arith,
}
use nine_core.Pipeline.{done}
use nine_core.Kafka.{Record}
use nine_core.Consumer.Setup.{Config, World, Machine, Decoded, decoded, undecodable}
use nine_core.Consumer.Run.{run}
use nine_core.Consumer.Ripeness.{Gate, run-IsGood}

abbrev stamped : ℕ → Record
stamped at = record {
  topic = codes "events-retry-5s";
  partition = 0;
  offset = 3;
  timestamp = at;
  key = [];
  value = at ∷ [];
  headers = [];
}

abbrev delay : ℕ
delay = 20

-- The timestamp that a message gives.
abbrev stamp : Bytes → ℕ
stamp [] = 0
stamp (at ∷ v) = at

-- A state is the time and whether a call came early; each poll takes 15 units of time.
abbrev watching : World ℕ
watching = record {
  State = ℕ × Bool;
  decode = λ k v. decoded (stamp v);
  handle = λ at s. ((done, none), (s.0, s.1 || ltb s.0 (at + delay)));
  sink = none;
  hook = none;
  now = λ s. (s.0, s);
  cancelled = λ s. (false, s);
  poll = λ n d s.
      (record { closed = false; records = stamped 90 ∷ stamped 105 ∷ [] }, (15 + s.0, s.1));
  commit_records = λ rs s. (none, s);
}

abbrev twenty : Config
twenty = record {
  brokers = codes "localhost:19092" ∷ [];
  group = codes "core";
  topic = codes "events-retry-5s";
  max_poll = pos 100;
  session = pos 0;
  commit_timeout = pos 0;
  delay = pos delay;
}

false_or : (b c : Bool) → b ≡ false → c ≡ false → (b || c) ≡ false
false_or b c p q = rw p q

on_time : (at now : ℕ) → at + delay ≤ now → ltb now (at + delay) ≡ false
on_time at now h = ground arith

message : Decoded ℕ → ℕ
message (decoded m) = m
message (undecodable e) = 0

-- No call came early; a record of the log holds its own timestamp.
punctual : Gate watching twenty
unfolding message
punctual = record {
  time = λ s. s.0;
  Good = λ s. s.1 ≡ false;
  IsServed = λ r. stamp r.value ≡ r.timestamp;
  now_reads = λ s. omega arith;
  handle_later = λ m s. omega arith;
  handle_keeps =
      λ r m s v q a k. false_or s.1 _ k (on_time m s.0 (omega (arith, a, v, ap message q)));
  sink_keeps = λ send q r o e s v a k. absurd (cc q);
  hook_keeps = λ hook q rs s k. absurd (cc q);
  now_keeps = λ s k. (k, omega arith);
  cancelled_keeps = λ s k. (k, omega arith);
  poll_serves = λ n d s. (refl, (refl, tt));
  poll_keeps = λ n d s k. (k, omega arith);
  commit_keeps = λ rs s k. (k, omega arith);
}

abbrev at_start : Machine (ℕ × Bool)
at_start = record { waiting = []; trace = []; world = (100, false) }

-- In two rounds the first record is handled twice, and the second is only due at the end of the
-- second one.
run-IsGood_example : (run watching twenty 2 at_start).1.world.1 ≡ false
unfolding punctual
run-IsGood_example = run-IsGood watching twenty punctual refl 2 at_start refl
