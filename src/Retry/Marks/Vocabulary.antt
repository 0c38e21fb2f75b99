-- ===== src/Retry/Marks/Vocabulary.antt =====
-- internal/retry/marks.go: the keys and the values of the marks that are fixed.
use nine_core.Common.{
  ℕ, List, [], ◌∷◌, Bool, true, false, Bytes, codes, bytes_eq, ◌==◌, leb, ◌||◌, ◌&&◌, length,
}

abbrev pub header_event_id : Bytes
header_event_id = codes "nine-event-id"

abbrev pub header_round : Bytes
header_round = codes "nine-retry-round"

abbrev pub header_outcome : Bytes
header_outcome = codes "nine-outcome"

abbrev pub header_failure_code : Bytes
header_failure_code = codes "nine-failure-code"

abbrev pub header_source_topic : Bytes
header_source_topic = codes "nine-source-topic"

abbrev pub header_first_failed_at : Bytes
header_first_failed_at = codes "nine-first-failed-at"

abbrev pub header_parked_at : Bytes
header_parked_at = codes "nine-parked-at"

abbrev pub outcome_retry_exhausted : Bytes
outcome_retry_exhausted = codes "retry-exhausted"

abbrev pub outcome_poison : Bytes
outcome_poison = codes "poison"

abbrev pub code_unknown : Bytes
code_unknown = codes "unknown"

abbrev pub code_unreadable_round : Bytes
code_unreadable_round = codes "unreadable-round"

-- The keys of `codeClasses`.
abbrev pub code_classes : List Bytes
code_classes =
    code_unknown
    ∷ code_unreadable_round
    ∷ codes "timeout"
    ∷ codes "unreachable"
    ∷ codes "decode"
    ∷ codes "schema"
    ∷ []

unfoldable pub is_key : Bytes → List Bytes → Bool
unfolding bytes_eq
is_key s [] = false
is_key s (k ∷ ks) = bytes_eq k s || is_key s ks

-- One of `[0-9A-Z]`.
abbrev pub is_sqlstate_byte : ℕ → Bool
is_sqlstate_byte c = leb b'0' c && leb c b'9' || leb b'A' c && leb c b'Z'

unfoldable pub all_sqlstate : Bytes → Bool
all_sqlstate [] = true
all_sqlstate (c ∷ s) = is_sqlstate_byte c && all_sqlstate s

-- `^[0-9A-Z]{5}$`.
unfoldable pub is_sqlstate : Bytes → Bool
unfolding all_sqlstate
is_sqlstate s = length s == 5 && all_sqlstate s

unfoldable pub valid_code : Bytes → Bool
unfolding is_key is_sqlstate
valid_code s = is_key s code_classes || is_sqlstate s

abbrev pub nine_headers : List Bytes
nine_headers =
    header_event_id ∷ header_round ∷ header_outcome ∷ header_failure_code ∷ header_source_topic
    ∷ header_first_failed_at ∷ header_parked_at ∷ []

unfoldable pub is_nine_header : Bytes → Bool
unfolding is_key
is_nine_header k = is_key k nine_headers
