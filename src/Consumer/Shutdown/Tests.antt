-- ===== src/Consumer/Shutdown/Tests.antt =====
-- A consumer whose context has ended, at a record that its handler answers with Fatal.
use nine_core.Common.{[], ◌∷◌, Option, Bool, true, false, none, some, Bytes, codes, pos, ◌≡◌, refl}
use nine_core.Errors.{GoError}
use nine_core.Pipeline.{fatal}
use nine_core.Kafka.{Record}
use nine_core.Consumer.Setup.{Config, World, Machine, decoded}
use nine_core.Consumer.Run.{run}
use nine_core.Consumer.Shutdown.{Ending, IsOfCommit, run_ends}

abbrev one_record : Record
one_record = record {
  topic = codes "events";
  partition = 0;
  offset = 3;
  timestamp = 90;
  key = codes "acme";
  value = [];
  headers = [];
}

abbrev closing : World Bytes
closing = record {
  State = Bool;
  decode = λ k v. decoded v;
  handle = λ m s. ((fatal, none), s);
  sink = none;
  hook = none;
  now = λ s. (100, s);
  cancelled = λ s. (s, s);
  poll = λ n d s. (record { closed = false; records = one_record ∷ [] }, s);
  commit_records = λ rs s. (none, s);
}

abbrev undelayed : Config
undelayed = record {
  brokers = codes "localhost:19092" ∷ [];
  group = codes "core";
  topic = codes "events";
  max_poll = pos 100;
  session = pos 0;
  commit_timeout = pos 0;
  delay = pos 0;
}

ended : Ending closing
ended = record {
  HasEnded = λ s. s ≡ true;
  over = λ s h. h;
  handle_keeps = λ m s h. h;
  sink_keeps = λ send q r o e s h. absurd (cc q);
  hook_keeps = λ hook q rs s h. absurd (cc q);
  now_keeps = λ s h. h;
  cancelled_keeps = λ s h. h;
  poll_keeps = λ n d s h. h;
  commit_keeps = λ rs s h. h;
}

abbrev cut_off : Machine Bool
cut_off = record { waiting = []; trace = []; world = true }

run_ends_example :
    (y : Option GoError) × ((run closing undelayed 1 cut_off).0 ≡ some y)
    × IsOfCommit closing undelayed ended y
unfolding ended
run_ends_example = run_ends closing undelayed ended 0 cut_off refl
