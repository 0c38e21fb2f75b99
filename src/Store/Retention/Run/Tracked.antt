-- ===== src/Store/Retention/Run/Tracked.antt =====
-- internal/store/retention.go: no table drops out of sight, wherever a run stops.
use nine_core.Common.{
  ℕ, some, Bool, true, false, Bool-cases, Bytes, bytes_eq, bytes_eq→eq, bytes_eq_refl, ◌≡◌, sym,
  subst, ◌∙◌, ◌⊎◌, inl, inr,
}
use nine_core.Errors.{Result, ok, err, errors_is, no_rows, labelled-eq-ok}
use nine_core.Store.Session.{
  open_record, detach, count, fill_record, drop_table, stamp, Database, Session, step-cases,
}
use nine_core.Store.Retention.{Candidate, Dropped, opened}
use nine_core.Store.Retention.Run.{drop_one, dropping}
use nine_core.Store.Catalogue.{View, Kept, Same, Only, IsDropped, Stamped, Effect, Catalogue}

-- A table that exists is a partition of events, or has an open record.
abbrev pub IsTracked : Bytes → View → Type 0
IsTracked n v = v.exists n ≡ true → (v.inherited n ≡ true) ⊎ (v.is_open n ≡ true)

pub Kept-IsTracked : (n : Bytes) (v v' : View) → Kept n v v' → IsTracked n v → IsTracked n v'
Kept-IsTracked n v v' (e, i, o) t x = elim (t (sym e ∙ x)) [
  | inl p ↦ inl (i ∙ p)
  | inr p ↦ inr (o ∙ p)
]

-- A record of `q` with the number `id` is open: if `n` is `q`, its record is.
abbrev IsRecorded : ℕ → Bytes → Bytes → View → Type 0
IsRecorded id q n v =
    (v.owner id ≡ some q) × (bytes_eq n q ≡ true → v.is_open n ≡ true) × IsTracked n v

-- And the table is gone: if `n` is `q`, it does not exist.
abbrev pub IsGone : ℕ → Bytes → Bytes → View → Type 0
IsGone id q n v = (v.owner id ≡ some q) × (bytes_eq n q ≡ true → v.exists n ≡ false) × IsTracked n v

module _ (q n : Bytes) (v v' : View) where
  -- What a statement about `q` does to `n`.
  pub about : (P : View → Bytes → Type 0) → Only q v v' → P v' q → (Kept n v v' → P v' n) → P v' n
  about P only at other = elim (Bool-cases (bytes_eq n q)) [
    | inl e ↦ subst (P v') (sym (bytes_eq→eq n q e)) at
    | inr e ↦ other (only.1 n e)
  ]

  open-IsTracked : Only q v v' → v'.is_open q ≡ true → IsTracked n v → IsTracked n v'
  open-IsTracked only o t =
      about (λ w m. IsTracked m w) only (λ x. inr o) (λ k. Kept-IsTracked n v v' k t)

  open-IsRecorded :
      (id : ℕ)
      → Only q v v'
      → v'.is_open q ≡ true
      → v'.owner id ≡ some q
      → IsTracked n v
      → IsRecorded id q n v'
  open-IsRecorded id only o w t = (
    w,
    λ e. subst (λ m. v'.is_open m ≡ true) (sym (bytes_eq→eq n q e)) o,
    open-IsTracked only o t,
  )

  -- A statement about `q` that leaves its record open.
  keep-IsRecorded :
      (id : ℕ)
      → Only q v v'
      → v'.is_open q ≡ v.is_open q
      → IsRecorded id q n v
      → IsRecorded id q n v'
  keep-IsRecorded id only o (w, open_if, t) = elim (Bool-cases (bytes_eq n q)) [
    | inl e ↦
        let at : v.is_open q ≡ true =
          subst (λ m. v.is_open m ≡ true) (bytes_eq→eq n q e) (open_if e) in
        open-IsRecorded id only (o ∙ at) (only.0 id q w) t
    | inr e ↦ (only.0 id q w, λ x. cc, Kept-IsTracked n v v' (only.1 n e) t)
  ]

  Same-IsRecorded : (id : ℕ) → Same v v' → IsRecorded id q n v → IsRecorded id q n v'
  Same-IsRecorded id same g = keep-IsRecorded id (same.0, λ m e. same.1 m) ((same.1 q).2) g

  dropped-IsGone :
      (id : ℕ) → Only q v v' → IsDropped q v v' → IsRecorded id q n v → IsGone id q n v'
  dropped-IsGone id only dr g = (
    only.0 id q (g.0),
    λ e. subst (λ m. v'.exists m ≡ false) (sym (bytes_eq→eq n q e)) (dr.0),
    about (λ w m. IsTracked m w) only (λ x. cc (dr.0)) (λ k. Kept-IsTracked n v v' k (g.2)),
  )

  Stamped-IsTracked :
      (id : ℕ) (a : Result (Unit {0})) → Stamped id a v v' → IsGone id q n v → IsTracked n v'
  Stamped-IsTracked id a st (w, gone, t) x =
      let (e, i, o) = st n in
      elim (t (sym e ∙ x)) [
        | inl p ↦ inl (i ∙ p)
        | inr p ↦ elim o [
          | inl same ↦ inr (same ∙ p)
          | inr (mine, closed) ↦
              let nq : q ≡ n = cc in
              let no : v.exists n ≡ false =
                gone (subst (λ m. bytes_eq n m ≡ true) (sym nq) (bytes_eq_refl n)) in
              cc
        ]
      ]

  pub both-Kept : Only q v v' → Kept q v v' → Kept n v v'
  both-Kept only k = elim (Bool-cases (bytes_eq n q)) [
    | inl e ↦ subst (λ m. Kept m v v') (sym (bytes_eq→eq n q e)) k
    | inr e ↦ only.1 n e
  ]

  open-Effect :
      (f t : ℕ) (a : Result ℕ) → Effect (open_record q f t) a v v' → IsTracked n v → IsTracked n v'
  open-Effect f t (ok id) (only, (o, w)) h = open-IsTracked only (o.2) h
  open-Effect f t (err e) (only, inl k) h = Kept-IsTracked n v v' (both-Kept only k) h
  open-Effect f t (err e) (only, inr o) h = open-IsTracked only (o.2) h

  opened-Effect :
      (f t : ℕ) (a : Result ℕ) (id : ℕ)
      → opened q a ≡ ok id
      → Effect (open_record q f t) a v v'
      → IsTracked n v
      → IsRecorded id q n v'
  opened-Effect f t (ok i) id e (only, (o, w)) h =
      let same : i ≡ id = cc in open-IsRecorded id only (o.2) (rw same at w) h
  opened-Effect f t (err x) id e (only, w) h = elim (Bool-cases (errors_is x no_rows)) [
    | inl z ↦ cc (rw z at e)
    | inr z ↦ cc (rw z at e)
  ]

  detach-Effect :
      (p : Bool) (a : Result (Unit {0})) (id : ℕ)
      → Effect (detach q p) a v v'
      → IsRecorded id q n v
      → IsRecorded id q n v'
  detach-Effect p (ok u) id (only, w) g = keep-IsRecorded id only (w.2) g
  detach-Effect p (err e) id (only, inl k) g = keep-IsRecorded id only (k.2) g
  detach-Effect p (err e) id (only, inr w) g = keep-IsRecorded id only (w.2) g

  drop-Effect :
      (a : Result (Unit {0})) (id : ℕ)
      → Effect (drop_table q) a v v'
      → IsRecorded id q n v
      → IsRecorded id q n v' × ((u : Unit {0}) → a ≡ ok u → IsGone id q n v')
  drop-Effect (ok u) id (only, w) g =
      (keep-IsRecorded id only (w.2) g, λ x e. dropped-IsGone id only w g)
  drop-Effect (err e) id (only, inl k) g = (keep-IsRecorded id only (k.2) g, λ x r. cc)
  drop-Effect (err e) id (only, inr w) g = (keep-IsRecorded id only (w.2) g, λ x r. cc)

  pub stamp-Effect :
      (t : ℕ) (a : Result (Unit {0})) (id : ℕ)
      → Effect (stamp id t) a v v'
      → IsGone id q n v
      → IsTracked n v'
  stamp-Effect t a id (own, st, cl) g = Stamped-IsTracked id a st g

module _ (d : Database) (c : Catalogue d) (n : Bytes) where
  -- The table `n` is tracked in a session.
  abbrev IsTrackedIn : Session d.State → Type 0
  IsTrackedIn s = IsTracked n (c.view s.state)

  pub drop_one-IsTracked :
      (x : Candidate) (now : ℕ) (s : Session d.State)
      → IsTrackedIn s
      → IsTrackedIn (drop_one d x now s).1
  unfolding drop_one
  drop_one-IsTracked x now s h =
      let P : Result Dropped × Session d.State → Type 0 = λ r. IsTrackedIn r.1 in
      let q = x.name in
      let at = c.effect (open_record q x.from x.to) s.state in
      step-cases P _ _ s (λ e z. open-Effect q n _ _ x.from x.to _ at h)
        (λ id z.
          let g1 = opened-Effect q n _ _ x.from x.to _ id z at h in
          let g2 =
            detach-Effect q n _ _ x.detach_is_pending _ id
              (c.effect (detach q x.detach_is_pending) _) g1 in
          step-cases P _ _ _ (λ e z2. g2.2)
            (λ u2 z2.
              let g3 = Same-IsRecorded q n _ _ id (c.effect (count q) _) g2 in
              step-cases P _ _ _ (λ e z3. g3.2)
                (λ rows z3.
                  let g4 = Same-IsRecorded q n _ _ id (c.effect (fill_record id rows now) _) g3 in
                  step-cases P _ _ _ (λ e z4. g4.2)
                    (λ u4 z4.
                      let g5 = drop-Effect q n _ _ _ id (c.effect (drop_table q) _) g4 in
                      step-cases P _ _ _ (λ e z5. g5.0.2)
                        (λ u5 z5.
                          let g6 = g5.1 u5 (labelled-eq-ok (dropping q) _ u5 z5) in
                          let g7 = stamp-Effect q n _ _ now _ id (c.effect (stamp id now) _) g6 in
                          step-cases P _ _ _ (λ e z6. g7) (λ u6 z6. g7))))))
