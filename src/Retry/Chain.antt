-- ===== src/Retry/Chain.antt =====
-- internal/retry/chain.go: the ladder of topics.
use nine_core.Common.{
  ℕ, ◌-◌, List, [], ◌∷◌, Option, none, some, Bool, false, Bytes, codes, bytes_eq, if◌then◌else◌,
  ◌||◌, length,
}

abbrev pub events_topic : Bytes
events_topic = codes "events"

abbrev pub retry_5m : Bytes
retry_5m = codes "events.retry-5m"

abbrev pub retry_1h : Bytes
retry_1h = codes "events.retry-1h"

abbrev pub chain : List Bytes
chain = events_topic ∷ retry_5m ∷ retry_1h ∷ []

abbrev pub parked : Bytes
parked = codes "events.parked"

abbrev pub dlq : Bytes
dlq = codes "events.dlq"

abbrev pub tiers : ℕ
tiers = length chain - 1

-- The loop of `NextTopic` over the rest of the chain.
unfoldable next_in : List Bytes → Bytes → Option Bytes
unfolding bytes_eq
next_in [] from = none
next_in (t ∷ []) from = none
next_in (t ∷ u ∷ ts) from = if bytes_eq t from then some u else next_in (u ∷ ts) from

unfoldable pub next_topic : Bytes → Option Bytes
unfolding next_in
next_topic from = next_in chain from

unfoldable is_one_of : List Bytes → Bytes → Bool
unfolding bytes_eq
is_one_of [] topic = false
is_one_of (t ∷ ts) topic = bytes_eq t topic || is_one_of ts topic

unfoldable pub in_chain : Bytes → Bool
unfolding is_one_of
in_chain topic = is_one_of chain topic
