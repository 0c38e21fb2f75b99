-- ===== src/Store/Retention/Run/Leaves.antt =====
-- internal/store/retention.go: what a whole run without an error leaves of the catalogue.
use nine_core.Common.{
  ℕ, ◌-◌, List, [], ◌∷◌, ◌++◌, Option, none, Option-cases, Bytes, ◌≡◌, sym, ap, subst, ◌∙◌, ◌⊎◌,
  inl, inr, Occurs, All,
}
use nine_core.Errors.{ok, labelled-eq-ok}
use nine_core.Store.Session.{
  Entry, asked, Row, list_partitions, find_pending, Database, Session, ask,
}
use nine_core.Store.Catalogue.{View, Same, Catalogue}
use nine_core.Store.Retention.{Candidate, Dropped, take_out}
use nine_core.Store.Retention.Run.{Report, drop_one, drop_all, pending_first, drop_past, retention}
use nine_core.Store.Retention.Run.Cases.{attempt-cases, step_on-cases}
use nine_core.Store.Retention.Run.Detaches.{drop_all-keeps}
use nine_core.Store.Retention.Run.Past.{IsPast}
use nine_core.Store.Retention.Run.Resumes.{IsCleared}
use nine_core.Store.Retention.Run.Cleared.{drop_one-Clears}
use nine_core.Store.Retention.Run.Complete.{names, names-take_out, past_rows-Occurs}

anywhere : (cs : List Candidate) → All (λ x. Unit {0}) cs
anywhere [] = tt
anywhere (x ∷ cs) = (tt, anywhere cs)

pub Same-IsCleared : (v v' : View) (n : Bytes) → Same v v' → IsCleared n v → IsCleared n v'
Same-IsCleared v v' n s h = ((s.1 n).0 ∙ h.0, (s.1 n).2 ∙ h.1)

module _ (d : Database) (c : Catalogue d) where
  abbrev pub V : Session d.State → View
  V s = c.view s.state

  -- Behind a run without an error, every name with `Q` is cleared.
  abbrev ClearsAll : (Bytes → Type 0) → Report × Session d.State → Type 0
  ClearsAll Q r = r.0.1 ≡ none → (n : Bytes) → Q n → IsCleared n (V r.1)

  drop_all-IsCleared :
      (cs : List Candidate) (now : ℕ) (out : List Dropped) (s : Session d.State)
      → ClearsAll (λ n. Occurs n (names cs) ⊎ IsCleared n (V s)) (drop_all d cs now out s)
  unfolding drop_all
  drop_all-IsCleared [] now out s = λ h n due. elim due [ inl o ↦ absurd o | inr k ↦ k ]
  drop_all-IsCleared (x ∷ cs) now out s =
      let s1 = (drop_one d x now s).1 in
      let P = ClearsAll (λ n. Occurs n (names (x ∷ cs)) ⊎ IsCleared n (V s)) in
      step_on-cases d P out _ (drop_all d cs now) s1 (λ e h. cc)
        (λ y z h n due.
          let (at, keep) = drop_one-Clears d c x now s y z in
          drop_all-IsCleared cs now (out ++ y ∷ []) s1 h n (elim due [
            | inl o ↦ elim o [
              | inl e ↦ inr (subst (λ m. IsCleared m (V s1)) (sym e) at)
              | inr l ↦ inl l
            ]
            | inr k ↦ inr (keep n k)
          ]))

  -- The names are cleared, and the statements so far stay in the trace.
  abbrev Leaves : (Bytes → Type 0) → List Entry → Report × Session d.State → Type 0
  Leaves Q tr r = ClearsAll Q r × ((e : Entry) → Occurs e tr → Occurs e r.1.trace)

  drop_all-Leaves :
      (cs : List Candidate) (now : ℕ) (out : List Dropped) (s : Session d.State)
      → Leaves (λ n. Occurs n (names cs) ⊎ IsCleared n (V s)) s.trace (drop_all d cs now out s)
  drop_all-Leaves cs now out s = (
    drop_all-IsCleared cs now out s,
    λ e o.
        drop_all-keeps (λ n. Unit) (Occurs e) (λ q x tr dq k. inr k) d cs now out s (anywhere cs) o,
  )

  pending_first-Leaves :
      (m : Bytes) (cs : List Candidate) (now : ℕ) (out : List Dropped) (s : Session d.State)
      → Leaves
          (λ n. Occurs n (names cs) ⊎ IsCleared n (V s))
          s.trace
          (pending_first d m cs now out s)
  pending_first-Leaves [] cs now out s = drop_all-Leaves cs now out s
  pending_first-Leaves (b ∷ m) cs now out s = elim (Option-cases (take_out (b ∷ m) cs)) [
    | inl t ↦ rw (t, pending_first) (λ h. cc, λ e o. o)
    | inr (z, t) ↦
        let (k, tr) = drop_all-Leaves (z.0 ∷ z.1) now out s in
        rw (t, pending_first)
          (
            λ h n due. k h n (elim due [
              | inl o ↦ inl (names-take_out n (b ∷ m) cs z.0 z.1 t o)
              | inr g ↦ inr g
            ]),
            tr,
          )
  ]

  module _ (parse : Bytes → Bytes → Option ℕ) where
    -- A listing that the database gave, of which every name that is past is cleared, and every
    -- name with `Q`.
    abbrev pub LeavesListed : ℕ → (Bytes → Type 0) → Report × Session d.State → Type 0
    LeavesListed b Q r =
        r.0.1 ≡ none
        → (rows : List Row) × Occurs (asked list_partitions (ok rows)) r.1.trace
          × ((n : Bytes) → IsPast parse b rows n ⊎ Q n → IsCleared n (V r.1))

    pub drop_past-Leaves :
        (now keep : ℕ) (out : List Dropped) (s : Session d.State)
        → LeavesListed (now - keep) (λ n. IsCleared n (V s)) (drop_past d parse now keep out s)
    unfolding drop_past
    drop_past-Leaves now keep out s =
        let s1 = (ask d list_partitions s).1 in
        let s2 = (ask d find_pending s1).1 in
        let P = LeavesListed (now - keep) (λ n. IsCleared n (V s)) in
        attempt-cases d P _ _ s1 (λ e h. cc)
          (λ rows a.
            attempt-cases d P _ _ s1 (λ e h. cc)
              (λ cs q.
                attempt-cases d P _ _ s2 (λ e h. cc)
                  (λ m z h.
                    let (k, tr) = pending_first-Leaves m cs now out s2 in
                    let listed = sym (labelled-eq-ok retention _ rows a) in
                    (
                      rows,
                      tr _ (inr (inl (ap (asked list_partitions) listed))),
                      λ n due. k h n (elim due [
                        | inl (x, e, (r, o, f, t, le)) ↦ inl (
                            subst (λ w. Occurs w (names cs)) (f ∙ e)
                              (past_rows-Occurs parse (now - keep) rows cs r x.from x.to q o t le))
                        | inr g ↦ inr (
                            Same-IsCleared (V s1) (V s2) n (c.effect find_pending s1.state)
                              (Same-IsCleared (V s) (V s1) n (c.effect list_partitions s.state) g))
                      ]),
                    ))))
