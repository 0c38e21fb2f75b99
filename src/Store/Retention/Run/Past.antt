-- ===== src/Store/Retention/Run/Past.antt =====
-- internal/store/retention.go: the candidates come from the listing and are past the boundary.
use nine_core.Common.{
  ℕ, ◌≤◌, List, [], ◌∷◌, Option, some, Bool-cases, Option-cases, Bytes, bytes_eq, ltb, ◌≡◌, refl,
  subst, inl, inr, All, All-map, Occurs, arith,
}
use nine_core.Errors.{ok, Result-cases}
use nine_core.Store.Session.{Row}
use nine_core.Store.Retention.{
  Candidate, take_out, insert_by_from, past_rows, parse_bounds, as_candidate,
}

module _ (P : Candidate → Type 0) where
  insert_by_from-All :
      (c : Candidate) (cs : List Candidate) → P c → All P cs → All P (insert_by_from c cs)
  unfolding insert_by_from
  insert_by_from-All c [] p h = (p, tt)
  insert_by_from-All c (x ∷ xs) p (px, h) = elim (Bool-cases (ltb x.from c.from)) [
    | inl t ↦ rw t (px, insert_by_from-All c xs p h)
    | inr t ↦ rw t (p, (px, h))
  ]

  pub take_out-All :
      (n : Bytes) (cs : List Candidate) (c : Candidate) (rest : List Candidate)
      → take_out n cs ≡ some (c, rest)
      → All P cs
      → P c × All P rest
  unfolding take_out
  take_out-All n [] c rest h a = cc
  take_out-All n (x ∷ xs) c rest h (px, a) = elim (Bool-cases (bytes_eq x.name n)) [
    | inl t ↦
        let e : (x, xs) ≡ (c, rest) = cc (rw t at h) in
        subst (λ (y : Candidate × List Candidate). P y.0 × All P y.1) e (px, a)
    | inr t ↦ elim (Option-cases (take_out n xs)) [
      | inl o ↦ cc (rw (t, o) at h)
      | inr (z, o) ↦
          let (pz, az) = take_out-All n xs z.0 z.1 o a in
          let e : (z.0, x ∷ z.1) ≡ (c, rest) = cc (rw (t, o) at h) in
          subst (λ (y : Candidate × List Candidate). P y.0 × All P y.1) e (pz, (px, az))
    ]
  ]

module _ (parse : Bytes → Bytes → Option ℕ) where
  -- A candidate that comes from a row of the listing and ends at the boundary or before.
  abbrev pub IsListed : ℕ → List Row → Candidate → Type 0
  IsListed boundary rows c =
      (r : Row) × Occurs r rows
      × (r.name ≡ c.name)
      × (parse_bounds parse r.bounds ≡ ok (c.from, c.to))
      × (c.to ≤ boundary)

  -- A name of a row of the listing that ends at the boundary or before.
  abbrev pub IsPast : ℕ → List Row → Bytes → Type 0
  IsPast boundary rows n = (c : Candidate) × (c.name ≡ n) × IsListed boundary rows c

  pub past_rows-IsListed :
      (boundary : ℕ) (rows : List Row) (cs : List Candidate)
      → past_rows parse boundary rows ≡ ok cs
      → All (IsListed boundary rows) cs
  unfolding past_rows
  past_rows-IsListed boundary [] cs h = let e : [] ≡ cs = cc in rw (← e) tt
  past_rows-IsListed boundary (r ∷ rs) cs h = elim (Result-cases (parse_bounds parse r.bounds)) [
    | inr (e, p) ↦ cc (rw p at h)
    | inl (b, p) ↦ elim (Result-cases (past_rows parse boundary rs)) [
      | inr (e, q) ↦ cc (rw (p, q) at h)
      | inl (cs', q) ↦
          let older =
            All-map (IsListed boundary rs) (IsListed boundary (r ∷ rs))
              (λ c k. (k.0, inr k.1, k.2, k.3, k.4)) cs' (past_rows-IsListed boundary rs cs' q) in
          elim (Bool-cases (ltb boundary b.1)) [
            | inl t ↦ let e : cs' ≡ cs = cc (rw (p, q, t) at h) in rw (← e) older
            | inr t ↦
                let e : insert_by_from (as_candidate parse r b) cs' ≡ cs = cc (rw (p, q, t) at h) in
                rw (← e) (
                  insert_by_from-All (IsListed boundary (r ∷ rs)) (as_candidate parse r b) cs'
                    (r, inl refl, refl, p, (ground arith)) older)
          ]
    ]
  ]
