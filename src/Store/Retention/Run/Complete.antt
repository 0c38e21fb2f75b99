-- ===== src/Store/Retention/Run/Complete.antt =====
-- internal/store/retention.go: a run without an error drops every partition that is past.
use nine_core.Common.{
  ℕ, ◌≤◌, ◌-◌, List, [], ◌∷◌, ◌++◌, map, Option, none, some, true, Bool-cases, Option-cases, Bytes,
  bytes_eq, ltb, ltb→lt, ◌≡◌, refl, sym, ap, ◌∙◌, subst, inl, inr, ◌⊎◌, Occurs, Occurs-append_left,
  Occurs-append_right, arith,
}
use nine_core.Errors.{ok, Result-cases, labelled-eq-ok}
use nine_core.Store.Session.{list_partitions, Row, Database, Session}
use nine_core.Store.Retention.{
  Candidate, Dropped, take_out, insert_by_from, past_rows, parse_bounds, as_candidate,
}
use nine_core.Store.Retention.Run.{drop_one, drop_all, pending_first, drop_past, retention}
use nine_core.Store.Retention.Run.Cases.{attempt-none}
use nine_core.Store.Retention.Run.Order.{as_dropped, drop_one-IsOrdered}

abbrev pub names : List Candidate → List Bytes
names = map (λ (c : Candidate). c.name)

abbrev pub dropped_names : List Dropped → List Bytes
dropped_names = map (λ (x : Dropped). x.name)

names-insert_by_from :
    (n : Bytes) (c : Candidate) (cs : List Candidate)
    → (n ≡ c.name) ⊎ Occurs n (names cs)
    → Occurs n (names (insert_by_from c cs))
unfolding insert_by_from
names-insert_by_from n c [] (inl e) = inl e
names-insert_by_from n c [] (inr o) = absurd o
names-insert_by_from n c (x ∷ xs) (inl e) = elim (Bool-cases (ltb x.from c.from)) [
  | inl t ↦ rw t (inr (names-insert_by_from n c xs (inl e)))
  | inr t ↦ rw t (inl e)
]
names-insert_by_from n c (x ∷ xs) (inr (inl e)) = elim (Bool-cases (ltb x.from c.from)) [
  | inl t ↦ rw t (inl e)
  | inr t ↦ rw t (inr (inl e))
]
names-insert_by_from n c (x ∷ xs) (inr (inr o)) = elim (Bool-cases (ltb x.from c.from)) [
  | inl t ↦ rw t (inr (names-insert_by_from n c xs (inr o)))
  | inr t ↦ rw t (inr (inr o))
]

-- A list under a new second element, where the first was found further on.
names-swap :
    (m : Bytes) (x z : Candidate) (xs rest : List Candidate)
    → (Occurs m (names xs) → Occurs m (names (z ∷ rest)))
    → Occurs m (names (x ∷ xs))
    → Occurs m (names (z ∷ x ∷ rest))
names-swap m x z xs rest ih (inl e) = inr (inl e)
names-swap m x z xs rest ih (inr k) = elim (ih k) [ inl e ↦ inl e | inr l ↦ inr (inr l) ]

pub names-take_out :
    (m n : Bytes) (cs : List Candidate) (c : Candidate) (rest : List Candidate)
    → take_out n cs ≡ some (c, rest)
    → Occurs m (names cs)
    → Occurs m (names (c ∷ rest))
unfolding take_out
names-take_out m n [] c rest h o = absurd o
names-take_out m n (x ∷ xs) c rest h o = elim (Bool-cases (bytes_eq x.name n)) [
  | inl t ↦
      let e : (x, xs) ≡ (c, rest) = cc (rw t at h) in
      subst (λ (y : Candidate × List Candidate). Occurs m (names (y.0 ∷ y.1))) e o
  | inr t ↦ elim (Option-cases (take_out n xs)) [
    | inl q ↦ cc (rw (t, q) at h)
    | inr (z, q) ↦
        let e : (z.0, x ∷ z.1) ≡ (c, rest) = cc (rw (t, q) at h) in
        subst (λ (y : Candidate × List Candidate). Occurs m (names (y.0 ∷ y.1))) e
          (names-swap m x z.0 xs z.1 (names-take_out m n xs z.0 z.1 q) o)
  ]
]

dropped_names-append :
    (xs ys : List Dropped) → dropped_names (xs ++ ys) ≡ dropped_names xs ++ dropped_names ys
dropped_names-append [] ys = refl
dropped_names-append (x ∷ xs) ys = ap (λ l. x.name ∷ l) (dropped_names-append xs ys)

-- A candidate that was dropped moves from the names to come to the names dropped_names.
moved :
    (n : Bytes) (c : Candidate) (cs : List Candidate) (out : List Dropped) (x : Dropped)
    → x.name ≡ c.name
    → Occurs n (names (c ∷ cs)) ⊎ Occurs n (dropped_names out)
    → Occurs n (names cs) ⊎ Occurs n (dropped_names (out ++ x ∷ []))
moved n c cs out x e (inl (inl q)) = inr (
    rw (dropped_names-append out (x ∷ []))
      (Occurs-append_right n (dropped_names out) (x.name ∷ []) (inl (q ∙ sym e))))
moved n c cs out x e (inl (inr o)) = inl o
moved n c cs out x e (inr o) = inr (
    rw (dropped_names-append out (x ∷ []))
      (Occurs-append_left n (dropped_names out) (x.name ∷ []) o))

module _ (d : Database) where
  drop_one-name :
      (c : Candidate) (now : ℕ) (s : Session d.State) (x : Dropped)
      → (drop_one d c now s).0 ≡ ok x
      → x.name ≡ c.name
  drop_one-name c now s x h =
      let (id, rows, k, a, e, mine, counted, end) = drop_one-IsOrdered d c now s in
      elim end [
        | inl (y, r, z) ↦ cc
        | inr (l, r) ↦ let q : x ≡ as_dropped c rows = cc in ap (λ (y : Dropped). y.name) q
      ]

  dropped_names-drop_all :
      (n : Bytes) (cs : List Candidate) (now : ℕ) (out out' : List Dropped) (s : Session d.State)
      → (drop_all d cs now out s).0 ≡ (out', none)
      → Occurs n (names cs) ⊎ Occurs n (dropped_names out)
      → Occurs n (dropped_names out')
  unfolding drop_all
  dropped_names-drop_all n [] now out out' s h (inl o) = absurd o
  dropped_names-drop_all n [] now out out' s h (inr o) =
      let e : out ≡ out' = cc in subst (λ l. Occurs n (dropped_names l)) e o
  dropped_names-drop_all n (c ∷ cs) now out out' s h o =
      elim (Result-cases (drop_one d c now s).0) [
        | inr (e, r) ↦ cc (rw r at h)
        | inl (x, r) ↦
            dropped_names-drop_all n cs now (out ++ x ∷ []) out' (drop_one d c now s).1 (rw r at h)
              (moved n c cs out x (drop_one-name c now s x r) o)
      ]

  dropped_names-pending_first :
      (m n : Bytes) (cs : List Candidate) (now : ℕ) (out out' : List Dropped) (s : Session d.State)
      → (pending_first d n cs now out s).0 ≡ (out', none)
      → Occurs m (names cs)
      → Occurs m (dropped_names out')
  dropped_names-pending_first m [] cs now out out' s h o =
      dropped_names-drop_all m cs now out out' s h (inl o)
  dropped_names-pending_first m (b ∷ n) cs now out out' s h o =
      elim (Option-cases (take_out (b ∷ n) cs)) [
        | inl t ↦ cc (rw (t, pending_first) at h)
        | inr (z, t) ↦
            dropped_names-drop_all m (z.0 ∷ z.1) now out out' s (rw (t, pending_first) at h)
              (inl (names-take_out m (b ∷ n) cs z.0 z.1 t o))
      ]

module _ (parse : Bytes → Bytes → Option ℕ) where
  too_late :
      (b : ℕ) (x r : Row) (f t : ℕ) (y : ℕ × ℕ)
      → r ≡ x
      → parse_bounds parse r.bounds ≡ ok (f, t)
      → parse_bounds parse x.bounds ≡ ok y
      → t ≤ b
      → ltb b y.1 ≡ true
      → ⊥
  too_late b x r f t y g p q le l =
      let e : parse_bounds parse r.bounds ≡ parse_bounds parse x.bounds =
        ap (λ (w : Row). parse_bounds parse w.bounds) g in
      let same : (f, t) ≡ y = cc in
      let last : t ≡ y.1 = ap (λ (w : ℕ × ℕ). w.1) same in let lt = ltb→lt b y.1 l in omega arith

  pub past_rows-Occurs :
      (b : ℕ) (rows : List Row) (cs : List Candidate) (r : Row) (f t : ℕ)
      → past_rows parse b rows ≡ ok cs
      → Occurs r rows
      → parse_bounds parse r.bounds ≡ ok (f, t)
      → t ≤ b
      → Occurs r.name (names cs)
  unfolding past_rows
  past_rows-Occurs b [] cs r f t h o p le = absurd o
  past_rows-Occurs b (x ∷ rows) cs r f t h o p le =
      elim (Result-cases (parse_bounds parse x.bounds)) [
        | inr (e, q) ↦ cc (rw q at h)
        | inl (y, q) ↦ elim (Result-cases (past_rows parse b rows)) [
          | inr (e, z) ↦ cc (rw (q, z) at h)
          | inl (cs', z) ↦
              let ih : Occurs r rows → Occurs r.name (names cs') =
                λ k. past_rows-Occurs b rows cs' r f t z k p le in
              elim (Bool-cases (ltb b y.1)) [
                | inl l ↦
                    let e : cs' ≡ cs = cc (rw (q, z, l) at h) in
                    rw (← e)
                      (elim o [ inr k ↦ ih k | inl g ↦ absurd (too_late b x r f t y g p q le l) ])
                | inr l ↦
                    let e : insert_by_from (as_candidate parse x y) cs' ≡ cs =
                      cc (rw (q, z, l) at h) in
                    rw (← e) (
                      names-insert_by_from r.name (as_candidate parse x y) cs'
                        (elim o [ inl g ↦ inl (ap (λ (w : Row). w.name) g) | inr k ↦ inr (ih k) ]))
              ]
        ]
      ]

  -- Behind the resumed drops, a run that ends without an error reports every partition of the
  -- listing whose bounds end at or before the boundary as dropped.
  pub drop_past_complete :
      (d : Database) (now keep : ℕ) (out out' : List Dropped) (s : Session d.State)
      (rows : List Row) (r : Row) (f t : ℕ)
      → (d.answer list_partitions s.state).0 ≡ ok rows
      → Occurs r rows
      → parse_bounds parse r.bounds ≡ ok (f, t)
      → t ≤ now - keep
      → (drop_past d parse now keep out s).0 ≡ (out', none)
      → Occurs r.name (dropped_names out')
  unfolding drop_past
  drop_past_complete d now keep out out' s rows r f t a o p le h =
      let (rows', a', h1) = attempt-none d _ _ _ out' h in
      let (cs, c, h2) = attempt-none d _ _ _ out' h1 in
      let (n, q, h3) = attempt-none d _ _ _ out' h2 in
      let same : rows' ≡ rows = cc (labelled-eq-ok retention _ rows' a', a) in
      let past : past_rows parse (now - keep) rows ≡ ok cs = cc in
      dropped_names-pending_first d r.name n cs now out out' _ h3
        (past_rows-Occurs (now - keep) rows cs r f t past o p le)
