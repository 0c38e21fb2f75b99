-- ===== src/Store/Classify/Table.antt =====
-- What the outcome and the failure code of one error have to do with each other.
use nine_core.Common.{
  [], Option, none, some, Bool, true, false, Bool-cases, inl, inr, ◌⊎◌, Bytes, codes, bytes_eq,
  bytes_eq→eq, has_prefix, ◌||◌, ◌≡◌, ◌≢◌, refl, arith,
}
use nine_core.Errors.{
  GoError, PgError, errors_is, find_pg, not_inserted, deadline_exceeded, canceled, unknown_value,
}
use nine_core.Pipeline.{done, retry, fatal}
use nine_core.Retry.Marks.Vocabulary.{code_unknown, valid_code, is_sqlstate, is_key, code_classes}
use nine_core.Store.Classify.{
  classify, classify_pg, classify_rest, failure_code, code_with_pg, code_without_pg,
}

-- The class codes are in the vocabulary.
classes_valid :
    (valid_code code_unknown ≡ true)
    × (valid_code (codes "timeout") ≡ true)
    × (valid_code (codes "unreachable") ≡ true)
    × (valid_code (codes "decode") ≡ true)
    × (valid_code (codes "schema") ≡ true)
unfolding valid_code bytes_eq
classes_valid = (refl, refl, refl, refl, refl)

sqlstate_valid : (s : Bytes) → is_sqlstate s ≡ true → valid_code s ≡ true
unfolding valid_code
sqlstate_valid s h = rw h (or_true (is_key s code_classes))
  where
    or_true : (b : Bool) → (b || true) ≡ true
    or_true true = refl
    or_true false = refl

-- What a server error found on the chain carries: a SQLSTATE.
abbrev HasSqlstate : Option PgError → Type 0
HasSqlstate none = Unit {0}
HasSqlstate (some p) = is_sqlstate p.code ≡ true

classify_pg-done : (p : PgError) → classify_pg p ≡ done → p.code ≡ codes "23505"
unfolding classify_pg
classify_pg-done p h = ground (arith, bytes_eq→eq p.code (codes "23505"))

-- A server error with no code is no Retry.
classify_pg_empty : (p : PgError) → p.code ≡ [] → classify_pg p ≢ retry
unfolding classify_pg bytes_eq has_prefix
classify_pg_empty p e h = let f : classify_pg p ≡ fatal = rw e in cc

module _ (safe_to_retry : GoError → Bool) where
  code_without_pg-valid : (e : GoError) → valid_code (code_without_pg safe_to_retry e) ≡ true
  code_without_pg-valid e = ground (arith, classes_valid)

  code_with_pg-valid :
      (p : Option PgError) (e : GoError)
      → HasSqlstate p
      → valid_code (code_with_pg safe_to_retry p e) ≡ true
  code_with_pg-valid none e h = code_without_pg-valid e
  code_with_pg-valid (some p) e h = ground (arith, sqlstate_valid p.code h, code_without_pg-valid e)

  -- The name of a failure is always one that a header may carry, if the code of a server error is
  -- a SQLSTATE, so the forwarder never refuses a record for it.
  pub failure_code-valid :
      (e : GoError)
      → HasSqlstate (find_pg e.chain)
      → valid_code (failure_code safe_to_retry (some e)) ≡ true
  unfolding failure_code
  failure_code-valid e h = ground (arith, classes_valid, code_with_pg-valid (find_pg e.chain) e h)

  classify_rest-done :
      (o : Option PgError) (e : GoError)
      → classify_rest safe_to_retry o e ≡ done
      → (p : PgError) × (o ≡ some p) × (p.code ≡ codes "23505")
  classify_rest-done none e h = absurd (ground arith)
  classify_rest-done (some p) e h = (p, refl, classify_pg-done p h)

  -- The log advances over an error in two cases only: the key was there already, or the server
  -- answered 23505, which is that too.
  pub classify-done :
      (e : GoError)
      → classify safe_to_retry (some e) ≡ done
      → (errors_is e not_inserted ≡ true)
        ⊎ ((p : PgError) × (find_pg e.chain ≡ some p) × (p.code ≡ codes "23505"))
  unfolding classify
  classify-done e h = elim (Bool-cases (errors_is e not_inserted)) [
    | inl a ↦ inl a
    | inr a ↦ elim (Bool-cases (errors_is e deadline_exceeded || errors_is e canceled)) [
      | inl b ↦ absurd (retry≢done (rw (a, b) at h))
      | inr b ↦ inr (classify_rest-done (find_pg e.chain) e (rw (a, b) at h))
    ]
  ]
    where
      retry≢done : retry ≡ done → ⊥
      retry≢done q = cc

  -- The name of an error that names no failed enum and becomes a Retry: a timeout, a dependency
  -- out of reach, or the SQLSTATE of the server error.
  abbrev IsDependency : GoError → Bytes → Type 0
  IsDependency e c =
      (c ≡ codes "timeout")
      ⊎ (c ≡ codes "unreachable")
      ⊎ ((p : PgError) × (find_pg e.chain ≡ some p) × (c ≡ p.code))

  rest-IsDependency :
      (o : Option PgError) (e : GoError)
      → find_pg e.chain ≡ o
      → classify_rest safe_to_retry o e ≡ retry
      → IsDependency e (code_with_pg safe_to_retry o e)
  rest-IsDependency none e q h = inr (inl (ground arith))
  rest-IsDependency (some p) e q h = elim (Bool-cases (bytes_eq p.code [])) [
    | inl b ↦ absurd (classify_pg_empty p (bytes_eq→eq p.code [] b) h)
    | inr b ↦ inr (inr (p, q, rw b))
  ]

  -- A Retry and its failure code come from one reading of the error: the code says that a
  -- dependency timed out or was out of reach, or is the SQLSTATE that made it a Retry. It is never
  -- `decode` or `unknown` in place of those.
  failure_code-retry :
      (e : GoError)
      → classify safe_to_retry (some e) ≡ retry
      → errors_is e unknown_value ≡ false
      → IsDependency e (failure_code safe_to_retry (some e))
  unfolding classify failure_code
  failure_code-retry e h u =
      elim (Bool-cases (errors_is e deadline_exceeded || errors_is e canceled)) [
        | inl b ↦ inl (rw b)
        | inr b ↦ elim (Bool-cases (errors_is e not_inserted)) [
          | inl a ↦ absurd (done≢retry (rw a at h))
          | inr a ↦ rw (b, u) (rest-IsDependency (find_pg e.chain) e refl (rw (a, b) at h))
        ]
      ]
    where
      done≢retry : done ≡ retry → ⊥
      done≢retry q = cc
