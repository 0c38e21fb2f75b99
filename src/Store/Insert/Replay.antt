-- ===== src/Store/Insert/Replay.antt =====
-- internal/store/store.go, handler.go: events that are delivered again.
use nine_core.Common.{
  List, [], ◌∷◌, some, Bool, true, false, Bytes, codes, ◌≡◌, refl, ◌∙◌, inl, inr, All, All-map,
}
use nine_core.Errors.{GoError, PgError, Result, ok, err, errors_is, find_pg, no_rows, not_inserted}
use nine_core.Pipeline.{done}
use nine_core.Event.{AgentRun}
use nine_core.Store.Insert.Columns.{Value, arguments}
use nine_core.Store.Insert.{insert, handle, handle-done}

-- What the documentation of the database says of `INSERT ... ON CONFLICT DO NOTHING RETURNING` on the
-- values of a row, for the rows of the table and the keys among them.
pub record Table {S : Type 0} (query_row : List Value → S → Result Bytes × S) : Type 1 where
  pub rows : S → List (List Value)
  pub HasKey : S → List Value → Type 0
  pub returned :
      (v : List Value) (s : S) (id : Bytes) → (query_row v s).0 ≡ ok id → HasKey (query_row v s).1 v
  pub conflicting :
      (v : List Value) (s : S) (x : GoError)
      → (query_row v s).0 ≡ err x
      → errors_is x no_rows ≡ true
      → HasKey (query_row v s).1 v
  pub violated :
      (v : List Value) (s : S) (x : GoError) (g : PgError)
      → (query_row v s).0 ≡ err x
      → find_pg x.chain ≡ some g
      → g.code ≡ codes "23505"
      → HasKey (query_row v s).1 v
  pub foreign :
      (v : List Value) (s : S) (x : GoError)
      → (query_row v s).0 ≡ err x
      → errors_is x not_inserted ≡ false
  pub keeps : (v : List Value) (s : S) (k : List Value) → HasKey s k → HasKey (query_row v s).1 k
  pub untouched : (v : List Value) (s : S) → HasKey s v → rows (query_row v s).1 ≡ rows s

module _ {S : Type 0} (safe_to_retry : GoError → Bool)
    (query_row : List Value → S → Result Bytes × S) (t : Table query_row) where
  -- The state behind some events, handled in their order.
  abbrev pub deliver : List AgentRun → S → S
  deliver [] s = s
  deliver (e ∷ es) s = deliver es (handle safe_to_retry query_row e s).1

  -- Each of them was answered with Done.
  abbrev AreDone : List AgentRun → S → Type 0
  AreDone [] s = Unit
  AreDone (e ∷ es) s =
      ((handle safe_to_retry query_row e s).0.0 ≡ done)
      × AreDone es (handle safe_to_retry query_row e s).1

  handle-keeps :
      (e : AgentRun) (s : S) (k : List Value)
      → t.HasKey s k
      → t.HasKey (handle safe_to_retry query_row e s).1 k
  unfolding handle insert
  handle-keeps e s k h = t.keeps (arguments e) s k h

  handle-untouched :
      (e : AgentRun) (s : S)
      → t.HasKey s (arguments e)
      → t.rows (handle safe_to_retry query_row e s).1 ≡ t.rows s
  unfolding handle insert
  handle-untouched e s h = t.untouched (arguments e) s h

  handle-HasKey :
      (e : AgentRun) (s : S)
      → (handle safe_to_retry query_row e s).0.0 ≡ done
      → t.HasKey (handle safe_to_retry query_row e s).1 (arguments e)
  unfolding handle insert
  handle-HasKey e s h =
      elim (handle-done safe_to_retry query_row e s (t.foreign (arguments e) s) h) [
        | inl (id, q) ↦ t.returned (arguments e) s id q
        | inr (x, q, inl n) ↦ t.conflicting (arguments e) s x q n
        | inr (x, q, inr (g, f, c)) ↦ t.violated (arguments e) s x g q f c
      ]

  deliver-keeps :
      (es : List AgentRun) (s : S) (k : List Value) → t.HasKey s k → t.HasKey (deliver es s) k
  deliver-keeps [] s k h = h
  deliver-keeps (e ∷ es) s k h = deliver-keeps es _ k (handle-keeps e s k h)

  deliver-HasKey :
      (es : List AgentRun) (s : S)
      → AreDone es s
      → All (λ e. t.HasKey (deliver es s) (arguments e)) es
  deliver-HasKey [] s h = tt
  deliver-HasKey (e ∷ es) s (first, rest) =
      (deliver-keeps es _ (arguments e) (handle-HasKey e s first), deliver-HasKey es _ rest)

  deliver-untouched :
      (es : List AgentRun) (s : S)
      → All (λ e. t.HasKey s (arguments e)) es
      → t.rows (deliver es s) ≡ t.rows s
  deliver-untouched [] s h = refl
  deliver-untouched (e ∷ es) s (has, rest) =
      deliver-untouched es _ (All-map _ _ (λ x. handle-keeps e s (arguments x)) es rest)
      ∙ handle-untouched e s has

  -- On a table that does what its documentation says: events that were all answered with Done can
  -- be delivered again, in the same order, without a change of its rows.
  pub deliver_again :
      (es : List AgentRun) (s : S)
      → AreDone es s
      → t.rows (deliver es (deliver es s)) ≡ t.rows (deliver es s)
  deliver_again es s h = deliver-untouched es (deliver es s) (deliver-HasKey es s h)
