-- ===== src/Retry/Tests.antt =====
-- Runs of the forwarder, and the theorems at concrete inputs.
use nine_core.Common.{
  ℕ, suc, ◌+◌, ◌*◌, ◌<◌, List, [], ◌∷◌, Option, none, some, true, Bytes, codes, pos, ◌≡◌, refl,
  arith, bytes_eq, has_prefix, false,
}
use nine_core.Errors.{
  GoError, ok, err, of_sentinel, deadline_exceeded, plain, pg, is_in, find_pg, has_net, has_connect,
}
use nine_core.Store.Classify.{failure_code, is_decode_failure}
use nine_core.Pipeline.{retry, poison}
use nine_core.Kafka.{Record, Header}
use nine_core.Strconv.{scan, unsigned, atoi}
use nine_core.Retry.Chain.{events_topic, retry_5m, retry_1h, parked, in_chain, next_topic}
use nine_core.Retry.Marks.{
  Marks, TimeText, read, read_time, round, header, apply, second, whole_second, unreadable, or_else,
}
use nine_core.Retry.Marks.Vocabulary.{
  outcome_retry_exhausted, header_round, valid_code, code_unknown, is_nine_header, is_key,
  is_sqlstate, all_sqlstate,
}
use nine_core.Retry.Marks.Apply.{IsSound, ReadsBack, read-apply}
use nine_core.Retry.Marks.Others.{header-apply_other}
use nine_core.Retry.Forwarder.{Naming, Broker, route, outgoing, forward}
use nine_core.Retry.Forwarder.Routes.{rank, rank-route}
use nine_core.Retry.Forwarder.Hops.{next_marks, route_retry_climbs}
use nine_core.Retry.Forwarder.Walk.{walk, marks1, marks2, marks3}
use nine_core.Retry.Forwarder.Unreadable.{
  IsStopped, route_retry_unreadable, forward_poison_unreadable,
}

-- A time format that writes a time as the list of its one number.
abbrev parse_single : Bytes → Option ℕ
parse_single [] = none
parse_single (t ∷ []) = some t
parse_single (t ∷ u ∷ s) = none

abbrev single : TimeText
single = record { format = λ t. t ∷ []; parse = parse_single; refusal = λ s. s }

single-ReadsBack : ReadsBack single
single-ReadsBack t h = refl

abbrev naming : Naming
naming = record { times = single; code_for = λ e. codes "timeout"; event_id_in = λ v. some v }

named : (c : Option GoError) → valid_code (or_else (naming.code_for c) code_unknown) ≡ true
unfolding valid_code bytes_eq
named c = refl

abbrev on_topic : Bytes → List Header → Record
on_topic t hs = record {
  topic = t;
  partition = 0;
  offset = 3;
  timestamp = 0;
  key = codes "acme";
  value = codes "e1";
  headers = hs;
}

abbrev fresh : Record
fresh = on_topic events_topic []

abbrev no_marks : Bytes → Marks
no_marks t = record {
  event_id = [];
  round = pos 0;
  outcome = [];
  failure_code = [];
  source_topic = t;
  first_failed_at = 0;
  parked_at = 0;
}

fresh-reads : read single fresh ≡ ok (no_marks events_topic)
unfolding read round read_time header
fresh-reads = refl

abbrev noon : ℕ
noon = 12 * 3600 * second + 5

-- The names of the program's own table.
abbrev by_class : Naming
by_class = record {
  times = single;
  code_for = failure_code (λ e. false);
  event_id_in = λ v. some v;
}

-- A deadline that passed, an error of the server, and one without a name.
abbrev late : Option GoError
late = some (of_sentinel deadline_exceeded (codes "context deadline exceeded"))

abbrev deadlock : Option GoError
deadlock = some (record {
  text = codes "ERROR: deadlock detected";
  chain = pg (record { code = codes "40P01"; constraint_name = [] }) ∷ [];
})

abbrev nameless : Option GoError
nameless = some (plain (codes "boom"))

abbrev marked1 : Marks
marked1 = marks1 by_class fresh (no_marks events_topic) late deadlock nameless noon noon noon

abbrev marked2 : Marks
marked2 = marks2 by_class fresh (no_marks events_topic) late deadlock nameless noon noon noon

abbrev marked3 : Marks
marked3 = marks3 by_class fresh (no_marks events_topic) late deadlock nameless noon noon noon

abbrev IsNamed : Option GoError → Type 0
IsNamed e = valid_code (or_else (by_class.code_for e) code_unknown) ≡ true

late-IsNamed : IsNamed late
unfolding valid_code is_key bytes_eq failure_code is_in find_pg has_net has_connect
late-IsNamed = refl

deadlock-IsNamed : IsNamed deadlock
unfolding valid_code is_key is_sqlstate all_sqlstate bytes_eq failure_code is_in find_pg has_net
    has_connect
deadlock-IsNamed = refl

nameless-IsNamed : IsNamed nameless
unfolding valid_code is_key bytes_eq failure_code is_in find_pg has_net has_connect
    is_decode_failure has_prefix
nameless-IsNamed = refl

walk_example :
    (route by_class fresh retry late noon ≡ ok (retry_5m, marked1))
    × (route by_class (outgoing by_class fresh retry_5m marked1) retry deadlock noon
        ≡ ok (retry_1h, marked2))
    × (route by_class
          (outgoing by_class (outgoing by_class fresh retry_5m marked1) retry_1h marked2)
          retry
          nameless
          noon
        ≡ ok (parked, marked3))
    × (marked3.round ≡ pos 2)
    × (marked3.first_failed_at ≡ whole_second noon)
    × (marked3.parked_at ≡ whole_second noon)
    × (marked3.source_topic ≡ retry_1h)
    × (marked3.outcome ≡ outcome_retry_exhausted)
walk_example =
    walk by_class fresh (no_marks events_topic) late deadlock nameless noon noon noon
      single-ReadsBack late-IsNamed deadlock-IsNamed nameless-IsNamed refl fresh-reads refl refl
      (omega arith) (omega arith) (omega arith)

route_retry_climbs_example :
    route naming fresh retry none noon
    ≡ ok (
      retry_5m,
      next_marks naming (no_marks events_topic) fresh (codes "timeout") [] (pos (0 + 1)) noon,
    )
unfolding in_chain next_topic bytes_eq
route_retry_climbs_example =
    route_retry_climbs naming fresh (no_marks events_topic) fresh-reads none noon 0 retry_5m refl
      refl refl (omega arith) (named none)

abbrev at_last_rung : Record
at_last_rung = on_topic retry_1h []

rank-route_example : rank events_topic < rank retry_5m
unfolding in_chain bytes_eq
rank-route_example =
    rank-route naming fresh retry none noon retry_5m
      (next_marks naming (no_marks events_topic) fresh (codes "timeout") [] (pos 1) noon) refl
      route_retry_climbs_example

abbrev two_rounds : Marks
two_rounds = record (no_marks retry_5m) {
  event_id = codes "e1";
  round = pos 2;
  failure_code = codes "40001";
  first_failed_at = 60 * second;
}

two_rounds-IsSound : IsSound two_rounds
two_rounds-IsSound = record {
  count = 2;
  counted = refl;
  in_int = omega arith;
  first_writable = omega arith;
  parked_writable = omega arith;
}

abbrev stale : Record
stale = on_topic retry_5m (
    record { key = codes "nine-parked-at"; value = codes "x" }
    ∷ record { key = codes "trace"; value = codes "abc" }
    ∷ [])

read-apply_example : read single (apply single two_rounds stale) ≡ ok two_rounds
read-apply_example = read-apply single single-ReadsBack two_rounds two_rounds-IsSound stale

header-apply_other_example :
    header (apply single two_rounds stale).headers (codes "trace")
    ≡ header stale.headers (codes "trace")
unfolding is_nine_header is_key bytes_eq
header-apply_other_example = header-apply_other single two_rounds stale (codes "trace") refl

-- A record whose round is a word.
abbrev wordy : Record
wordy = on_topic retry_5m (record { key = header_round; value = codes "later" } ∷ [])

wordy-unreadable : round wordy ≡ err (unreadable (codes "later"))
unfolding round header bytes_eq atoi unsigned scan
wordy-unreadable = refl

route_retry_unreadable_example :
    (m : Marks) × (route naming wordy retry none noon ≡ ok (parked, m))
    × IsStopped naming wordy (unreadable (codes "later")) wordy-unreadable noon m
unfolding in_chain bytes_eq
route_retry_unreadable_example =
    route_retry_unreadable naming wordy (unreadable (codes "later")) wordy-unreadable none noon refl

abbrev open_broker : Broker
open_broker = record { State = ℕ; now = λ s. (noon, s); produce = λ r s. (none, suc s) }

forward_poison_unreadable_example :
    forward naming open_broker wordy poison none 0 ≡ (some (unreadable (codes "later")), 0)
forward_poison_unreadable_example =
    forward_poison_unreadable naming wordy (unreadable (codes "later")) wordy-unreadable open_broker
      none 0
