-- ===== src/Store/Classify.antt =====
-- internal/store/classify.go: an error of the insert becomes an outcome and a failure code.
pub mod Table
use nine_core.Common.{
  List, [], ◌∷◌, Option, none, some, Bool, true, false, not, Bytes, codes, bytes_eq, has_prefix,
  if◌then◌else◌, ◌||◌, ◌&&◌,
}
use nine_core.Errors.{
  GoError, PgError, errors_is, find_pg, has_net, has_connect, not_inserted, deadline_exceeded,
  canceled, unknown_value,
}
use nine_core.Pipeline.{Outcome, done, retry, fatal}
use nine_core.Retry.Marks.Vocabulary.{code_unknown}

-- The SQLSTATE half of the table.
unfoldable pub classify_pg : PgError → Outcome
classify_pg e =
    if bytes_eq e.code (codes "23505")
    then done
    else if bytes_eq e.code (codes "40001") || bytes_eq e.code (codes "57P01")
    then retry
    else if bytes_eq e.code (codes "23514")
    then (if bytes_eq e.constraint_name [] then retry else fatal)
    else if has_prefix e.code (codes "08")
    then retry
    else fatal

-- `pgconn.SafeToRetry` is the library's, and is given.
module _ (safe_to_retry : GoError → Bool) where
  abbrev pub classify_rest : Option PgError → GoError → Outcome
  classify_rest (some p) e = classify_pg p
  classify_rest none e =
      if has_net e.chain || safe_to_retry e
      then retry
      else if has_connect e.chain
      then retry
      else fatal

  unfoldable pub classify : Option GoError → Outcome
  classify none = done
  classify (some e) =
      if errors_is e not_inserted
      then done
      else if errors_is e deadline_exceeded || errors_is e canceled
      then retry
      else classify_rest (find_pg e.chain) e

  unfoldable pub is_decode_failure : GoError → Bool
  is_decode_failure e = has_prefix e.text (codes "decode")

  abbrev pub code_without_pg : GoError → Bytes
  code_without_pg e =
      if has_net e.chain || has_connect e.chain || safe_to_retry e
      then codes "unreachable"
      else if is_decode_failure e
      then codes "decode"
      else code_unknown

  abbrev pub code_with_pg : Option PgError → GoError → Bytes
  code_with_pg none e = code_without_pg e
  code_with_pg (some p) e = if not (bytes_eq p.code []) then p.code else code_without_pg e

  unfoldable pub failure_code : Option GoError → Bytes
  failure_code none = code_unknown
  failure_code (some e) =
      if errors_is e deadline_exceeded || errors_is e canceled
      then codes "timeout"
      else if errors_is e unknown_value
      then codes "schema"
      else code_with_pg (find_pg e.chain) e
