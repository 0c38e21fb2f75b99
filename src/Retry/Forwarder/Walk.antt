-- ===== src/Retry/Forwarder/Walk.antt =====
-- The whole way of a record whose every attempt fails: the two rungs, then the parked topic.
use nine_core.Common.{
  ℕ, ◌*◌, ◌<◌, ◌≤◌, [], Option, none, some, true, Bytes, bytes_eq, inl, pos, ◌≡◌, refl, arith,
}
use nine_core.Errors.{GoError, ok}
use nine_core.Pipeline.{retry}
use nine_core.Kafka.{Record}
use nine_core.Retry.Chain.{events_topic, retry_5m, retry_1h, parked, next_topic, in_chain}
use nine_core.Retry.Marks.{Marks, read, apply, or_else, whole_second, second}
use nine_core.Retry.Marks.Vocabulary.{valid_code, outcome_retry_exhausted, code_unknown}
use nine_core.Retry.Marks.Apply.{IsSound, IsWritable, ReadsBack, read-apply}
use nine_core.Retry.Forwarder.{Naming, route, outgoing}
use nine_core.Retry.Forwarder.Hops.{next_marks, route_retry_climbs, route_retry_parks}

outgoing-topic :
    (n : Naming) (r : Record) (dest : Bytes) (m : Marks) → (outgoing n r dest m).topic ≡ dest
unfolding outgoing apply
outgoing-topic n r dest m = refl

-- The consumer of the next topic reads off the marks that the forwarder wrote.
read-outgoing :
    (n : Naming) (r : Record) (dest : Bytes) (m : Marks)
    → ReadsBack n.times
    → IsSound m
    → read n.times (outgoing n r dest m) ≡ ok m
unfolding outgoing
read-outgoing n r dest m back v = read-apply n.times back m v _

chain_steps :
    (in_chain events_topic ≡ true)
    × (in_chain retry_5m ≡ true)
    × (in_chain retry_1h ≡ true)
    × (next_topic events_topic ≡ some retry_5m)
    × (next_topic retry_5m ≡ some retry_1h)
    × (next_topic retry_1h ≡ none)
unfolding in_chain next_topic bytes_eq
chain_steps = (refl, refl, refl, refl, refl, refl)

-- A clock reading in the years that the time format can write, past the first second of year 1.
abbrev IsClock : ℕ → Type 0
IsClock t = (second ≤ t) × (t < 3652059 * 86400 * second)

whole_second-IsWritable : (t : ℕ) → IsClock t → IsWritable (whole_second t)
whole_second-IsWritable t h = omega arith

module _ (n : Naming) (r : Record) (prev : Marks) (c1 c2 c3 : Option GoError) (t1 t2 t3 : ℕ) where
  -- The marks after each of three failures, and the records that carry the first two.
  abbrev pub marks1 : Marks
  marks1 = next_marks n prev r (n.code_for c1) [] (pos 1) t1

  abbrev record1 : Record
  record1 = outgoing n r retry_5m marks1

  abbrev pub marks2 : Marks
  marks2 = next_marks n marks1 record1 (n.code_for c2) [] (pos 2) t2

  abbrev record2 : Record
  record2 = outgoing n record1 retry_1h marks2

  abbrev pub marks3 : Marks
  marks3 = next_marks n marks2 record2 (n.code_for c3) outcome_retry_exhausted (pos 2) t3

  module _ (back : ReadsBack n.times)
      (named1 : valid_code (or_else (n.code_for c1) code_unknown) ≡ true)
      (named2 : valid_code (or_else (n.code_for c2) code_unknown) ≡ true)
      (named3 : valid_code (or_else (n.code_for c3) code_unknown) ≡ true)
      (on_events : r.topic ≡ events_topic) (reads : read n.times r ≡ ok prev)
      (unspent : prev.round ≡ pos 0) (unfailed : prev.first_failed_at ≡ 0) (k1 : IsClock t1)
      (k2 : IsClock t2) (k3 : IsClock t3) where
    since1 : marks1.first_failed_at ≡ whole_second t1
    since1 = rw unfailed

    since2 : marks2.first_failed_at ≡ whole_second t1
    since2 = ground (arith, since1)

    since3 : marks3.first_failed_at ≡ whole_second t1
    since3 = ground (arith, since2)

    sound1 : IsSound marks1
    unfolding bytes_eq
    sound1 = record {
      count = 1;
      counted = refl;
      in_int = omega arith;
      first_writable = rw since1 (whole_second-IsWritable t1 k1);
      parked_writable = omega arith;
    }

    sound2 : IsSound marks2
    unfolding bytes_eq
    sound2 = record {
      count = 2;
      counted = refl;
      in_int = omega arith;
      first_writable = rw since2 (whole_second-IsWritable t1 k1);
      parked_writable = omega arith;
    }

    -- A record fresh from `events` whose three attempts all end in Retry goes to the five minute
    -- topic, then to the one hour topic, then to the parked topic. There it says that it has spent
    -- two rounds, first failed at the second of the first attempt, stopped at the second of the
    -- last one, came from the one hour topic, and is parked because its retries ran out. Each of
    -- the three causes is named by a code that a header may carry, the times lie in the years 1 to
    -- 9999, and a time that the format writes is read back.
    pub walk :
        (route n r retry c1 t1 ≡ ok (retry_5m, marks1))
        × (route n record1 retry c2 t2 ≡ ok (retry_1h, marks2))
        × (route n record2 retry c3 t3 ≡ ok (parked, marks3))
        × (marks3.round ≡ pos 2)
        × (marks3.first_failed_at ≡ whole_second t1)
        × (marks3.parked_at ≡ whole_second t3)
        × (marks3.source_topic ≡ retry_1h)
        × (marks3.outcome ≡ outcome_retry_exhausted)
    unfolding bytes_eq
    walk =
        let (in0, in1, in2, n0, n1, n2) = chain_steps in
        let at1 = outgoing-topic n r retry_5m marks1 in
        let at2 = outgoing-topic n record1 retry_1h marks2 in
        (
          route_retry_climbs n r prev reads c1 t1 0 retry_5m (rw on_events in0) (rw on_events n0)
              unspent (omega arith) named1,
          route_retry_climbs n record1 marks1 (read-outgoing n r retry_5m marks1 back sound1) c2 t2
              1 retry_1h (rw at1 in1) (rw at1 n1) refl (omega arith) named2,
          route_retry_parks n record2 marks2 (read-outgoing n record1 retry_1h marks2 back sound2)
              c3 t3 2 refl (rw at2 in2) (inl (rw at2 n2)) named3,
          refl,
          since3,
          refl,
          at2,
          refl,
        )
