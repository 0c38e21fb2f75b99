-- ===== src/Retry/Forwarder/Hops.antt =====
-- What a record carries from hop to hop along the ladder.
use nine_core.Common.{
  ℕ, ◌+◌, ◌<◌, ◌≤◌, [], Option, none, some, Bool, true, false, Bytes, bytes_eq, ◌==◌, inl, inr, ◌⊎◌,
  if◌then◌else◌, leb, ℤ, pos, ◌≡◌, ◌∙◌, arith, incr,
}
use nine_core.Errors.{GoError, Result, ok}
use nine_core.Pipeline.{retry}
use nine_core.Kafka.{Record}
use nine_core.Retry.Chain.{parked, tiers, next_topic, in_chain}
use nine_core.Retry.Marks.{
  Marks, read, round, spent, retry_marks, park_marks, build, build_on, or_else, whole_second,
}
use nine_core.Retry.Marks.Vocabulary.{valid_code, outcome_retry_exhausted, code_unknown}
use nine_core.Retry.Forwarder.{Naming, event_id, climb, route, addressed}

-- When a record first failed: the time that it carries, or now.
abbrev failed_since : Marks → ℕ → ℕ
failed_since prev now = if prev.first_failed_at == 0 then whole_second now else prev.first_failed_at

-- The marks that a record carries off, by the verdict written on it.
abbrev pub next_marks : Naming → Marks → Record → Bytes → Bytes → ℤ → ℕ → Marks
next_marks n prev r code outcome round now = record {
  event_id = or_else (event_id n r) prev.event_id;
  round = round;
  outcome = outcome;
  failure_code = or_else code code_unknown;
  source_topic = r.topic;
  first_failed_at = failed_since prev now;
  parked_at = if bytes_eq outcome [] then 0 else whole_second now;
}

module _ (n : Naming) (r : Record) (prev : Marks) (reads : read n.times r ≡ ok prev) where
  read-round : round r ≡ ok prev.round
  unfolding read
  read-round = ground arith

  spent_lem : (k : ℕ) → prev.round ≡ pos k → spent r tiers ≡ leb tiers k
  unfolding spent
  spent_lem k e = ground (arith, read-round)

  build_lem :
      (code outcome : Bytes) (spend : Bool) (now : ℕ)
      → valid_code (or_else code code_unknown) ≡ true
      → build n.times r (event_id n r) code outcome spend now
        ≡ ok (next_marks n prev r code outcome (if spend then incr prev.round else prev.round) now)
  unfolding build build_on
  build_lem code outcome spend now valid = rw reads (ground arith)

  pub route_retry_climbs :
      (cause : Option GoError) (now k : ℕ) (next : Bytes)
      → in_chain r.topic ≡ true
      → next_topic r.topic ≡ some next
      → prev.round ≡ pos k
      → k < tiers
      → valid_code (or_else (n.code_for cause) code_unknown) ≡ true
      → route n r retry cause now
        ≡ ok (next, next_marks n prev r (n.code_for cause) [] (pos (k + 1)) now)
  unfolding route climb retry_marks
  route_retry_climbs cause now k next c e rounds lt valid =
      let left : spent r tiers ≡ false = spent_lem k rounds ∙ ground arith in
      let up : incr prev.round ≡ pos (k + 1) = rw rounds (unfold incr in ground arith) in
      rw (c, e, left, build_lem (n.code_for cause) [] true now valid, up)

  module _ (cause : Option GoError) (now k : ℕ) (rounds : prev.round ≡ pos k) where
    abbrev parked_as : Result (Bytes × Marks)
    parked_as =
        ok (parked, next_marks n prev r (n.code_for cause) outcome_retry_exhausted (pos k) now)

    parks :
        valid_code (or_else (n.code_for cause) code_unknown) ≡ true
        → addressed parked (park_marks n.times r (event_id n r) (n.code_for cause) now) ≡ parked_as
    unfolding park_marks
    parks valid = rw (build_lem (n.code_for cause) outcome_retry_exhausted false now valid, rounds)

    climb_parks :
        (next : Option Bytes)
        → (next ≡ none) ⊎ (tiers ≤ k)
        → valid_code (or_else (n.code_for cause) code_unknown) ≡ true
        → climb n next r (n.code_for cause) now ≡ parked_as
    unfolding climb
    climb_parks none l valid = parks valid
    climb_parks (some t) (inl e) valid = cc
    climb_parks (some t) (inr le) valid =
        let out : spent r tiers ≡ true = spent_lem k rounds ∙ ground arith in rw out (parks valid)

    pub route_retry_parks :
        in_chain r.topic ≡ true
        → (next_topic r.topic ≡ none) ⊎ (tiers ≤ k)
        → valid_code (or_else (n.code_for cause) code_unknown) ≡ true
        → route n r retry cause now ≡ parked_as
    unfolding route
    route_retry_parks c last valid = rw c (climb_parks (next_topic r.topic) last valid)
