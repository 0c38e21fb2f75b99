-- ===== src/Retry/Forwarder/Unreadable.antt =====
-- Records whose own round does not parse: parked on a Retry, and stuck on a Poison.
use nine_core.Common.{◌*◌, ◌/◌, pos, codes, refl, ℕ, Option, none, some, true, Bytes, ◌≡◌, arith}
use nine_core.Errors.{GoError, ok, err, unreadable_round, errors_is, is_in}
use nine_core.Pipeline.{retry, poison}
use nine_core.Kafka.{Record}
use nine_core.Retry.Chain.{parked, next_topic, in_chain, tiers}
use nine_core.Retry.Marks.{
  read, round, spent, header, round_of, build, park_marks, poison_marks, unreadable_marks, Marks,
  second,
}
use nine_core.Retry.Marks.Vocabulary.{header_round}
use nine_core.Retry.Forwarder.{Naming, event_id, climb, route, Broker, forward}

-- The only failure of `Round` is `ErrUnreadableRound`.
round_of-unreadable :
    (v : Option Bytes) (e : GoError) → round_of v ≡ err e → errors_is e unreadable_round ≡ true
unfolding is_in
round_of-unreadable none e h = cc
round_of-unreadable (some raw) e h = ground arith

module _ (n : Naming) (r : Record) (e : GoError) (bad : round r ≡ err e) where
  is_unreadable : errors_is e unreadable_round ≡ true
  unfolding round
  is_unreadable = round_of-unreadable (header r.headers header_round) e bad

  read-unreadable : read n.times r ≡ err e
  unfolding read
  read-unreadable = rw bad

  parks_unreadable :
      (code : Bytes) (now : ℕ)
      → park_marks n.times r (event_id n r) code now ≡ ok (unreadable_marks r (event_id n r) now)
  unfolding park_marks build
  parks_unreadable code now = rw (read-unreadable, is_unreadable)

  spent_unreadable : spent r tiers ≡ true
  unfolding spent
  spent_unreadable = ground arith

  climb_unreadable :
      (next : Option Bytes) (code : Bytes) (now : ℕ)
      → climb n next r code now ≡ ok (parked, unreadable_marks r (event_id n r) now)
  unfolding climb
  climb_unreadable none code now = rw (parks_unreadable code now)
  climb_unreadable (some t) code now = rw (spent_unreadable, parks_unreadable code now)

  -- The marks of a record that is parked because its round does not parse.
  abbrev pub IsStopped : ℕ → Marks → Type 0
  IsStopped now m =
      (m.round ≡ pos 2)
      × (m.failure_code ≡ codes "unreadable-round")
      × (m.outcome ≡ codes "retry-exhausted")
      × (m.event_id ≡ event_id n r)
      × (m.source_topic ≡ r.topic)
      × (m.first_failed_at ≡ now / second * second)
      × (m.parked_at ≡ now / second * second)

  -- A Retry of a record on the chain whose round does not parse is parked at once, whatever the
  -- cause of the Retry is named: with both rounds spent, under the code `unreadable-round`, as
  -- `retry-exhausted`, from the topic it stood in, and as failed and parked at the second of now.
  pub route_retry_unreadable :
      (cause : Option GoError) (now : ℕ)
      → in_chain r.topic ≡ true
      → (m : Marks) × (route n r retry cause now ≡ ok (parked, m)) × IsStopped now m
  unfolding route
  route_retry_unreadable cause now c = (
    unreadable_marks r (event_id n r) now,
    rw c (climb_unreadable (next_topic r.topic) (n.code_for cause) now),
    (refl, refl, refl, refl, refl, omega arith, omega arith),
  )

  route_poison_unreadable : (cause : Option GoError) (now : ℕ) → route n r poison cause now ≡ err e
  unfolding route poison_marks build
  route_poison_unreadable cause now = rw read-unreadable

  -- A Poison whose round does not parse is sent nowhere: the forwarder answers with the error of
  -- the round and produces no record, whatever the broker would have answered.
  pub forward_poison_unreadable :
      (b : Broker) (cause : Option GoError) (s : b.State)
      → forward n b r poison cause s ≡ (some e, (b.now s).1)
  unfolding forward
  forward_poison_unreadable b cause s = ground (arith, route_poison_unreadable cause (b.now s).0)
