-- ===== src/Retry/Forwarder.antt =====
-- internal/retry/forwarder.go: where a record goes, and how it gets there.
pub mod Routes
pub mod Hops
pub mod Walk
pub mod Unreadable
use nine_core.Common.{
  ℕ, List, [], ◌∷◌, ◌++◌, Option, none, some, Bool, true, false, not, Bytes, codes, bytes_eq,
  if◌then◌else◌, get_text,
}
use nine_core.Errors.{
  labelled, ◌>>=◌, GoError, Result, ok, err, of_sentinel, wrap, plain, off_chain,
}
use nine_core.Pipeline.{Outcome, unknown, done, retry, poison, fatal, other, outcome_string}
use nine_core.Kafka.{Record}
use nine_core.Retry.Chain.{tiers, parked, dlq, next_topic, in_chain}
use nine_core.Retry.Marks.{
  Marks, TimeText, read, spent, retry_marks, park_marks, poison_marks, apply,
}

-- What the forwarder calls: the clock and a synchronous produce, acting on a state of the world.
pub record Broker : Type 1 where
  pub State : Type 0
  pub now : State → ℕ × State
  pub produce : Record → State → Option GoError × State

-- The values that a forwarder is given or takes from the standard library: the time format, the
-- name of a failure, and the `event_id` of a payload (`none` where it does not parse).
pub record Naming : Type 0 where
  pub times : TimeText
  pub code_for : Option GoError → Bytes
  pub event_id_in : Bytes → Option Bytes

abbrev pub addressed : Bytes → Result Marks → Result (Bytes × Marks)
addressed topic (ok m) = ok (topic, m)
addressed topic (err e) = err e

abbrev text_or_empty : Option Bytes → Bytes
text_or_empty none = []
text_or_empty (some s) = s

abbrev off_the_chain : Bytes → GoError
off_the_chain topic =
    wrap [] (of_sentinel off_chain (codes "retry: the record is not on the chain"))
      (codes ": " ++ topic)

abbrev not_forwarded : Outcome → GoError
not_forwarded o =
    plain
      (codes "retry: " ++ (get_text (outcome_string o) ++ codes " is not an outcome this forwards"))

-- `NewForwarder`, where `connect` makes the producer onto some brokers.
abbrev unnamed : GoError
unnamed = plain (codes "retry: a forwarder needs a way to name a failure")

unfoldable pub new_forwarder :
    {S : Type 0} (connect : List Bytes → S → Result (Unit {0}) × S)
    → List Bytes
    → Option (Option GoError → Bytes)
    → S
    → Result (Option GoError → Bytes) × S
new_forwarder connect brokers none s = (err unnamed, s)
new_forwarder connect brokers (some code_for) s =
    let r = connect brokers s in (labelled (codes "retry: ") r.0 >>= (λ _. ok code_for), r.1)

module _ (n : Naming) where
  -- The id in the marks, or in the payload.
  unfoldable pub event_id : Record → Bytes
  event_id r =
      let body = text_or_empty (n.event_id_in r.value) in
      elim (read n.times r) [
        | ok m ↦ if bytes_eq m.event_id [] then body else m.event_id
        | err e ↦ body
      ]

  -- A Retry of a record whose topic has `next` behind it on the chain.
  unfoldable pub climb : Option Bytes → Record → Bytes → ℕ → Result (Bytes × Marks)
  climb none r code now = addressed parked (park_marks n.times r (event_id r) code now)
  climb (some next) r code now =
      if spent r tiers
      then addressed parked (park_marks n.times r (event_id r) code now)
      else addressed next (retry_marks n.times r (event_id r) code now)

  unfoldable pub route : Record → Outcome → Option GoError → ℕ → Result (Bytes × Marks)
  route r poison cause now =
      addressed dlq (poison_marks n.times r (event_id r) (n.code_for cause) now)
  route r retry cause now =
      if not (in_chain r.topic)
      then err (off_the_chain r.topic)
      else climb (next_topic r.topic) r (n.code_for cause) now
  route r unknown cause now = err (not_forwarded unknown)
  route r done cause now = err (not_forwarded done)
  route r fatal cause now = err (not_forwarded fatal)
  route r (other k) cause now = err (not_forwarded (other k))

  -- The record that is produced: the payload as it came, under the new marks.
  unfoldable pub outgoing : Record → Bytes → Marks → Record
  outgoing r dest m = apply n.times m (record {
    topic = dest;
    partition = 0;
    offset = 0;
    timestamp = 0;
    key = r.key;
    value = r.value;
    headers = r.headers;
  })

  abbrev produced : Bytes → Option GoError → Option GoError
  produced dest none = none
  produced dest (some e) = some (wrap (codes "retry: producing to " ++ (dest ++ codes ": ")) e [])

  unfoldable pub forward :
      (b : Broker) → Record → Outcome → Option GoError → b.State → Option GoError × b.State
  forward b r o cause s = elim (route r o cause (b.now s).0) [
    | err e ↦ (some e, (b.now s).1)
    | ok (dest, m) ↦ let p = b.produce (outgoing r dest m) (b.now s).1 in (produced dest p.0, p.1)
  ]
