-- ===== src/Retry/Marks.antt =====
-- internal/retry/marks.go: reading, building and writing the marks that a record carries.
pub mod Vocabulary
pub mod Apply
pub mod Others
use nine_core.Common.{
  ℕ, zero, suc, ◌+◌, ◌-◌, ◌%◌, ◌^◌, List, [], ◌∷◌, ◌++◌, Option, none, some, Bool, true, false, not,
  Bytes, codes, bytes_eq, ◌==◌, ltb, leb, if◌then◌else◌, ◌||◌, ◌&&◌, ℤ, pos, negsuc, incr, length,
  map,
}
use nine_core.Errors.{
  GoError, Result, ok, err, ◌>>=◌, of_sentinel, wrap, plain, errors_is, unreadable_round,
  invalid_failure_code,
}
use nine_core.Strconv.{atoi, itoa}
use nine_core.Kafka.{Record, Header}
use nine_core.Retry.Marks.Vocabulary.{
  header_event_id, header_round, header_outcome, header_failure_code, header_source_topic,
  header_first_failed_at, header_parked_at, outcome_retry_exhausted, outcome_poison, code_unknown,
  code_unreadable_round, code_classes, is_key, is_sqlstate_byte, all_sqlstate, is_sqlstate,
  valid_code, nine_headers, is_nine_header,
}
use nine_core.Retry.Chain.{tiers}

-- Times count nanoseconds from the zero time of Go, which `IsZero` tests for.
pub record Marks : Type 0 where
  pub event_id : Bytes
  pub round : ℤ
  pub outcome : Bytes
  pub failure_code : Bytes
  pub source_topic : Bytes
  pub first_failed_at : ℕ
  pub parked_at : ℕ

-- `time.RFC3339` of the standard library, both ways, and the text of its parse error.
pub record TimeText : Type 0 where
  pub format : ℕ → Bytes
  pub parse : Bytes → Option ℕ
  pub refusal : Bytes → Bytes

abbrev pub second : ℕ
second = 10 ^ 9

-- `t.Truncate(time.Second)`.
abbrev pub whole_second : ℕ → ℕ
whole_second t = t - t % second

-- The errors of `%q` carry the value without its quotes, which nothing reads.
abbrev pub unreadable : Bytes → GoError
unreadable raw =
    wrap [] (of_sentinel unreadable_round (codes "nine-retry-round is not a number"))
      (codes ": " ++ raw)

abbrev invalid_code : Bytes → GoError
invalid_code c =
    wrap []
      (of_sentinel invalid_failure_code
        (codes "nine-failure-code is outside the vocabulary of adr/0003"))
      (codes ": " ++ c)

-- The value of the first header of a name.
unfoldable pub header : List Header → Bytes → Option Bytes
unfolding bytes_eq
header [] key = none
header (h ∷ hs) key = if bytes_eq h.key key then some h.value else header hs key

abbrev parsed_round : Bytes → Option ℤ → Result ℤ
parsed_round raw (some (pos n)) = ok (pos n)
parsed_round raw (some (negsuc n)) = err (unreadable raw)
parsed_round raw none = err (unreadable raw)

abbrev pub round_of : Option Bytes → Result ℤ
round_of none = ok (pos 0)
round_of (some raw) = parsed_round raw (atoi raw)

unfoldable pub round : Record → Result ℤ
unfolding header
round r = round_of (header r.headers header_round)

-- `n >= tiers`.
abbrev at_least : ℤ → ℕ → Bool
at_least (pos n) k = leb k n
at_least (negsuc n) k = false

unfoldable pub spent : Record → ℕ → Bool
spent r k = elim (round r) [ ok n ↦ at_least n k | err e ↦ true ]

abbrev pub value_or : Option Bytes → Bytes → Bytes
value_or none d = d
value_or (some v) d = v

abbrev pub or_else : Bytes → Bytes → Bytes
or_else s d = if bytes_eq s [] then d else s

-- `build` from the marks that the record carries.
unfoldable pub build_on : Marks → Record → Bytes → Bytes → Bytes → Bool → ℕ → Result Marks
unfolding valid_code bytes_eq incr
build_on prev r event_id failure_code outcome spend now =
    let code = or_else failure_code code_unknown in
    let at = whole_second now in
    if not (valid_code code)
    then err (invalid_code code)
    else ok (record {
      event_id = or_else event_id prev.event_id;
      round = if spend then incr prev.round else prev.round;
      outcome = outcome;
      failure_code = code;
      source_topic = r.topic;
      first_failed_at = if prev.first_failed_at == 0 then at else prev.first_failed_at;
      parked_at = if bytes_eq outcome [] then 0 else at;
    })

abbrev pub unreadable_marks : Record → Bytes → ℕ → Marks
unreadable_marks r event_id now = record {
  event_id = event_id;
  round = pos tiers;
  outcome = outcome_retry_exhausted;
  failure_code = code_unreadable_round;
  source_topic = r.topic;
  first_failed_at = whole_second now;
  parked_at = whole_second now;
}

abbrev park_after : Record → Bytes → ℕ → Result Marks → Result Marks
park_after r event_id now (ok m) = ok m
park_after r event_id now (err e) =
    if errors_is e unreadable_round then ok (unreadable_marks r event_id now) else err e

abbrev mark : Bytes → Bytes → Header
mark k v = record { key = k; value = v }

abbrev pub mark_if : Bool → Bytes → Bytes → List Header
mark_if true k v = mark k v ∷ []
mark_if false k v = []

module _ (times : TimeText) where
  abbrev time_of : Bytes → Bytes → Option ℕ → Result ℕ
  time_of key v (some t) = ok t
  time_of key v none = err (wrap (key ++ codes ": ") (plain (times.refusal v)) [])

  abbrev pub read_time_of : Bytes → Option Bytes → Result ℕ
  read_time_of key none = ok 0
  read_time_of key (some v) = time_of key v (times.parse v)

  unfoldable pub read_time : Record → Bytes → Result ℕ
  read_time r key = read_time_of key (header r.headers key)

  unfoldable pub read : Record → Result Marks
  read r = do
    n ← round r
    first ← read_time r header_first_failed_at
    stopped ← read_time r header_parked_at
    ok (record {
      event_id = value_or (header r.headers header_event_id) [];
      round = n;
      outcome = value_or (header r.headers header_outcome) [];
      failure_code = value_or (header r.headers header_failure_code) [];
      source_topic = value_or (header r.headers header_source_topic) r.topic;
      first_failed_at = first;
      parked_at = stopped;
    })

  unfoldable pub build : Record → Bytes → Bytes → Bytes → Bool → ℕ → Result Marks
  build r event_id failure_code outcome spend now = do
    prev ← read r
    build_on prev r event_id failure_code outcome spend now

  unfoldable pub retry_marks : Record → Bytes → Bytes → ℕ → Result Marks
  retry_marks r event_id failure_code now = build r event_id failure_code [] true now

  unfoldable pub park_marks : Record → Bytes → Bytes → ℕ → Result Marks
  park_marks r event_id failure_code now =
      park_after r event_id now (build r event_id failure_code outcome_retry_exhausted false now)

  unfoldable pub poison_marks : Record → Bytes → Bytes → ℕ → Result Marks
  poison_marks r event_id failure_code now = build r event_id failure_code outcome_poison false now

  unfoldable pub headers_of : Marks → List Header
  headers_of m =
      mark_if (not (bytes_eq m.event_id [])) header_event_id m.event_id
      ++ (mark header_round (itoa m.round)
          ∷ mark header_failure_code m.failure_code
          ∷ mark header_source_topic m.source_topic
          ∷ (mark_if (not (bytes_eq m.outcome [])) header_outcome m.outcome
              ++ (mark_if (not (m.first_failed_at == 0)) header_first_failed_at
                    (times.format m.first_failed_at)
                  ++ mark_if (not (m.parked_at == 0)) header_parked_at (times.format m.parked_at))))

-- The headers whose key `Apply` keeps: neither one of `mine` nor a mark at all.
unfoldable pub keep : List Bytes → List Header → List Header
keep mine [] = []
keep mine (h ∷ hs) =
    if not (is_key h.key mine) && not (is_nine_header h.key) then h ∷ keep mine hs else keep mine hs

module _ (times : TimeText) where
  unfoldable pub apply : Marks → Record → Record
  apply m r =
      let mine = map (λ (h : Header). h.key) (headers_of times m) in
      record r { headers = keep mine r.headers ++ headers_of times m }
