-- ===== src/Store/Retention/Run/Cleared.antt =====
-- internal/store/retention.go: what a drop that did not fail leaves of the catalogue.
use nine_core.Common.{
  codes, ℕ, some, false, Bool-cases, Bytes, bytes_eq, bytes_eq→eq, ◌≡◌, sym, subst, ◌∙◌, inl, inr,
}
use nine_core.Errors.{Result, ok, err, errors_is, no_rows, labelled-eq-ok}
use nine_core.Store.Session.{
  open_record, detach, count, fill_record, drop_table, stamp, Database, Session, step-cases, ask,
}
use nine_core.Store.Catalogue.{View, Owned, Same, Only, Effect, Catalogue}
use nine_core.Store.Retention.{Candidate, Dropped, opened}
use nine_core.Store.Retention.Run.{drop_one, dropping, about}
use nine_core.Store.Retention.Run.Resumes.{IsCleared, dropped-exists, stamp-Resumes, stamped-Closed}

-- Records keep their names, and every other name that is cleared stays so.
abbrev Spares : Bytes → View → View → Type 0
Spares q v v' = Owned v v' × ((m : Bytes) → bytes_eq m q ≡ false → IsCleared m v → IsCleared m v')

-- The same behind the opening of a record about `q`.
abbrev Goes : Bytes → ℕ → View → View → Type 0
Goes q id v v' = Spares q v v' × (v'.owner id ≡ some q)

module _ (q : Bytes) where
  Goes-on : (id : ℕ) (x y z : View) → Goes q id x y → Spares q y z → Goes q id x z
  Goes-on id x y z ((o, k), w) (o', k') =
      ((λ i n h. o' i n (o i n h), λ m e h. k' m e (k m e h)), o' id q w)

  Only-Spares : (v v' : View) → Only q v v' → Spares q v v'
  Only-Spares v v' (own, k) = (own, λ m e h. ((k m e).0 ∙ h.0, (k m e).2 ∙ h.1))

  Same-Spares : (v v' : View) → Same v v' → Spares q v v'
  Same-Spares v v' (own, k) = (own, λ m e h. ((k m).0 ∙ h.0, (k m).2 ∙ h.1))

  opened-Spares :
      (v v' : View) (f t : ℕ) (a : Result ℕ) (id : ℕ)
      → opened q a ≡ ok id
      → Effect (open_record q f t) a v v'
      → Goes q id v v'
  opened-Spares v v' f t (ok i) id e (only, (o, w)) =
      let same : i ≡ id = cc in (Only-Spares v v' only, rw same at w)
  opened-Spares v v' f t (err x) id e (only, w) = elim (Bool-cases (errors_is x no_rows)) [
    | inl z ↦ cc (rw z at e)
    | inr z ↦ cc (rw z at e)
  ]

-- The name is cleared, and what was cleared before.
abbrev pub Clears : Bytes → View → View → Type 0
Clears q v v' = IsCleared q v' × ((m : Bytes) → IsCleared m v → IsCleared m v')

-- A stamp of a record of `q`, behind steps about `q` that dropped its table.
stamped-Clears :
    (q : Bytes) (v u v' : View) (id t : ℕ) (a : Result (Unit {0})) (x : Unit {0})
    → a ≡ ok x
    → Goes q id v u
    → u.exists q ≡ false
    → Effect (stamp id t) a u v'
    → Clears q v v'
stamped-Clears q v u v' id t a x e ((own, k), w) gone (own', st, cl) =
    let (o, ex, op) = stamp-Resumes u v' id a own' st in
    let at : IsCleared q v' = (ex q gone, stamped-Closed u v' id a x q e cl w) in
    (
      at,
      λ m h. elim (Bool-cases (bytes_eq m q)) [
        | inl y ↦ subst (λ n. IsCleared n v') (sym (bytes_eq→eq m q y)) at
        | inr y ↦ let (g, c) = k m y h in (ex m g, op m c)
      ],
    )

module _ (d : Database) (c : Catalogue d) where
  abbrev V : Session d.State → View
  V s = c.view s.state

  pub drop_one-Clears :
      (x : Candidate) (now : ℕ) (s : Session d.State) (y : Dropped)
      → (drop_one d x now s).0 ≡ ok y
      → Clears x.name (V s) (V (drop_one d x now s).1)
  unfolding drop_one
  drop_one-Clears x now s =
      let q = x.name in
      let P : Result Dropped × Session d.State → Type 0 =
        λ r. (y : Dropped) → r.0 ≡ ok y → Clears q (V s) (V r.1) in
      let s1 = (ask d (open_record q x.from x.to) s).1 in
      let s2 = (ask d (detach q x.detach_is_pending) s1).1 in
      let s3 = (ask d (count q) s2).1 in
      let f1 = c.effect (open_record q x.from x.to) s.state in
      let f2 = c.effect (detach q x.detach_is_pending) s1.state in
      let f3 = c.effect (count q) s2.state in
      step-cases P _ _ s (λ e z y h. cc)
        (λ id z.
          let k1 = opened-Spares q (V s) (V s1) x.from x.to _ id z f1 in
          let k2 = Goes-on q id (V s) (V s1) (V s2) k1 (Only-Spares q (V s1) (V s2) (f2.0)) in
          let k3 = Goes-on q id (V s) (V s2) (V s3) k2 (Same-Spares q (V s2) (V s3) f3) in
          step-cases P _ _ s1 (λ e z2 y h. cc)
            (λ u2 z2.
              step-cases P _ _ s2 (λ e z3 y h. cc)
                (λ rows z3.
                  let s4 = (ask d (fill_record id rows now) s3).1 in
                  let s5 = (ask d (drop_table q) s4).1 in
                  let s6 = (ask d (stamp id now) s5).1 in
                  let f4 = c.effect (fill_record id rows now) s3.state in
                  let f5 = c.effect (drop_table q) s4.state in
                  let k4 = Goes-on q id (V s) (V s3) (V s4) k3 (Same-Spares q (V s3) (V s4) f4) in
                  let k5 =
                    Goes-on q id (V s) (V s4) (V s5) k4 (Only-Spares q (V s4) (V s5) (f5.0)) in
                  step-cases P _ _ s3 (λ e z4 y h. cc)
                    (λ u4 z4.
                      step-cases P _ _ s4 (λ e z5 y h. cc)
                        (λ u5 z5.
                          let gone =
                            dropped-exists q q (V s4) (V s5) _ u5
                              (labelled-eq-ok (dropping q) _ u5 z5) f5 in
                          step-cases P _ _ s5 (λ e z6 y h. cc)
                            (λ u6 z6 y h.
                              stamped-Clears q (V s) (V s5) (V s6) id now _ u6
                                (labelled-eq-ok (about (codes "stamp ") q) _ u6 z6) k5 gone
                                (c.effect (stamp id now) s5.state)))))))
