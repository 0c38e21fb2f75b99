-- ===== src/Consumer/Setup.antt =====
-- internal/consumer/consumer.go: the configuration, what a consumer is given to call, and its state.
use nine_core.Common.{
  ℕ, ◌*◌, ◌^◌, List, [], ◌∷◌, Option, none, some, Bool, true, false, Bytes, codes, bytes_eq, ◌==◌,
  if◌then◌else◌, ◌||◌, ℤ, pos, natural,
}
use nine_core.Errors.{GoError, plain}
use nine_core.Pipeline.{Outcome}
use nine_core.Kafka.{Record}

-- Durations count nanoseconds.
abbrev pub millisecond : ℕ
millisecond = 10 ^ 6

abbrev second : ℕ
second = 10 ^ 9

-- `Config`, less the logger and the clock.
pub record Config : Type 0 where
  pub brokers : List Bytes
  pub group : Bytes
  pub topic : Bytes
  pub max_poll : ℤ
  pub session : ℤ
  pub commit_timeout : ℤ
  pub delay : ℤ

abbrev or_default : ℤ → ℕ → ℤ
or_default n d = if natural n == 0 then pos d else n

unfoldable pub with_defaults : Config → Config
unfolding bytes_eq
with_defaults c = record c {
  topic = if bytes_eq c.topic [] then codes "events" else c.topic;
  max_poll = or_default c.max_poll 100;
  session = or_default c.session (10 * second);
  commit_timeout = or_default c.commit_timeout (10 * second);
}

-- What a decoder returns: the message, or an error.
pub data Decoded (T : Type 0) : Type 0 where
  decoded : T → Decoded T
  undecodable : GoError → Decoded T

-- What one poll returns: whether the client was closed, and the fetched records in their order.
pub record Fetches : Type 0 where
  pub closed : Bool
  pub records : List Record

-- What the program does not implement: the decoder, the handler, the sink and the hook that it is
-- given, the clock, the caller's context, and the client's two calls that answer. Each acts on a
-- state of the world of which nothing is assumed.
pub record World (T : Type 0) : Type 1 where
  pub State : Type 0
  pub decode : Bytes → Bytes → Decoded T
  pub handle : T → State → (Outcome × Option GoError) × State
  pub sink : Option (Record → Outcome → Option GoError → State → Option GoError × State)
  pub hook : Option (List Record → State → Option GoError × State)
  pub now : State → ℕ × State
  pub cancelled : State → Bool × State
  pub poll : ℤ → Option ℕ → State → Fetches × State
  pub commit_records : List Record → State → Option GoError × State

module _ {T : Type 0} (w : World T) where
  -- `WithSink` and `WithCommitHook`.
  abbrev pub with_sink :
      (Record → Outcome → Option GoError → w.State → Option GoError × w.State) → World T
  with_sink send = record w { sink = some send }

  abbrev with_commit_hook : (List Record → w.State → Option GoError × w.State) → World T
  with_commit_hook hook = record w { hook = some hook }

-- The calls that leave the consumer, with their answers.
pub data Call : Type 0 where
  handled : Record → Outcome → Call
  forwarded : Record → Outcome → Option GoError → Call
  sought : ℕ → ℕ → Call
  paused : ℕ → Call
  resumed : List ℕ → Call
  hooked : List Record → Option GoError → Call
  committed : List Record → Option GoError → Call
  polled : Fetches → Call
  rebalance_allowed : Call

-- The consumer's own state, `waiting`, beside the world and the calls so far, the latest first.
pub record Machine (S : Type 0) : Type 0 where
  pub waiting : List (ℕ × ℕ)
  pub trace : List Call
  pub world : S

-- The map `waiting`: a write replaces the entry of its partition.
unfoldable pub put : ℕ → ℕ → List (ℕ × ℕ) → List (ℕ × ℕ)
put p at [] = (p, at) ∷ []
put p at ((q, b) ∷ w) = if q == p then (p, at) ∷ w else (q, b) ∷ put p at w

unfoldable pub delete : ℕ → List (ℕ × ℕ) → List (ℕ × ℕ)
delete p [] = []
delete p ((q, b) ∷ w) = if q == p then delete p w else (q, b) ∷ delete p w

unfoldable pub contains : List ℕ → ℕ → Bool
contains [] p = false
contains (q ∷ qs) p = q == p || contains qs p

-- The callback of a revoked or lost partition.
unfoldable pub forget : List ℕ → List (ℕ × ℕ) → List (ℕ × ℕ)
unfolding delete
forget [] w = w
forget (p ∷ ps) w = forget ps (delete p w)

-- The check of `New`, before it joins the group; the new consumer waits for nothing.
abbrev refusal : GoError
refusal = plain (codes "consumer: brokers and group are required")

unfoldable pub new : {S : Type 0} → Config → S → Option GoError × Config × Machine S
unfolding bytes_eq
new c s = (
  if no_brokers c.brokers || bytes_eq c.group [] then some refusal else none,
  with_defaults c,
  record { waiting = []; trace = []; world = s },
)
  where
    no_brokers : List Bytes → Bool
    no_brokers [] = true
    no_brokers (b ∷ bs) = false
