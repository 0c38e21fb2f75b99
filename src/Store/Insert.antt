-- ===== src/Store/Insert.antt =====
-- internal/store/store.go, handler.go: the insert of one event and what it means.
pub mod Replay
pub mod Columns
mod Tests
use nine_core.Common.{
  List, Option, none, some, Bool, true, false, Bytes, codes, if◌then◌else◌, ◌≡◌, refl, ◌⊎◌, inl,
  inr, Bool-cases,
}
use nine_core.Errors.{
  GoError, PgError, Result, ok, err, of_sentinel, errors_is, find_pg, no_rows, not_inserted,
}
use nine_core.Pipeline.{Outcome, done}
use nine_core.Event.{AgentRun}
use nine_core.Store.Insert.Columns.{Value, arguments}
use nine_core.Store.Classify.{classify}
use nine_core.Store.Classify.Table.{classify-done}

abbrev already_recorded : GoError
already_recorded = of_sentinel not_inserted (codes "already recorded")

-- What `Insert` returns for what the statement returned.
unfoldable pub inserted : Result Bytes → Option GoError
inserted (ok id) = none
inserted (err e) = if errors_is e no_rows then some already_recorded else some e

-- The error that `Handle` passes on.
unfoldable reported : Option GoError → Option GoError
reported none = none
reported (some e) = if errors_is e not_inserted then none else some e

-- `insertSQL` in the database, on the values of its parameters, is given; it returns the event id.
module _ {S : Type 0} (safe_to_retry : GoError → Bool)
    (query_row : List Value → S → Result Bytes × S) where
  unfoldable pub insert : AgentRun → S → Option GoError × S
  unfolding inserted
  insert e s = (inserted (query_row (arguments e) s).0, (query_row (arguments e) s).1)

  unfoldable pub handle : AgentRun → S → (Outcome × Option GoError) × S
  unfolding insert reported
  handle e s = let r = insert e s in ((classify safe_to_retry r.0, reported r.0), r.1)

  -- The handler answers Done, and the log advances, only if the row was written, or was there by
  -- its key, or the server answered 23505, if the database's own errors are not the program's
  -- `ErrNotInserted`.
  pub handle-done :
      (e : AgentRun) (s : S)
      → ((x : GoError) → (query_row (arguments e) s).0 ≡ err x → errors_is x not_inserted ≡ false)
      → (handle e s).0.0 ≡ done
      → ((id : Bytes) × ((query_row (arguments e) s).0 ≡ ok id))
        ⊎ ((x : GoError) × ((query_row (arguments e) s).0 ≡ err x)
            × ((errors_is x no_rows ≡ true)
                ⊎ ((p : PgError) × (find_pg x.chain ≡ some p) × (p.code ≡ codes "23505"))))
  unfolding handle inserted
  handle-done e s h d = go (query_row (arguments e) s).0 refl d
    where
      go :
          (r : Result Bytes)
          → (query_row (arguments e) s).0 ≡ r
          → classify safe_to_retry (inserted r) ≡ done
          → ((id : Bytes) × ((query_row (arguments e) s).0 ≡ ok id))
            ⊎ ((x : GoError) × ((query_row (arguments e) s).0 ≡ err x)
                × ((errors_is x no_rows ≡ true)
                    ⊎ ((p : PgError) × (find_pg x.chain ≡ some p) × (p.code ≡ codes "23505"))))
      go (ok id) q c = inl (id, q)
      go (err x) q c = elim (Bool-cases (errors_is x no_rows)) [
        | inl t ↦ inr (x, q, inl t)
        | inr t ↦ elim (classify-done safe_to_retry x (rw t at c)) [
          | inl n ↦ let f = h x q in cc
          | inr p ↦ inr (x, q, inr p)
        ]
      ]
