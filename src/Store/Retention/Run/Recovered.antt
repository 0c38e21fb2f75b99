-- ===== src/Store/Retention/Run/Recovered.antt =====
-- internal/store/retention.go: `resumeUnfinished` finishes what an interrupted run left behind.
use nine_core.Common.{
  ℕ, List, [], ◌∷◌, ◌++◌, Option, none, some, Bool, true, false, Bytes, ◌≡◌, refl, All, All-map,
}
use nine_core.Errors.{Result, ok, labelled-eq-ok}
use nine_core.Store.Session.{
  find_unfinished, count, fill_record, drop_table, stamp, Unfinished, Database, Session, step-cases,
  ask,
}
use nine_core.Store.Catalogue.{View, Same, IsFound, Catalogue}
use nine_core.Store.Retention.{Dropped}
use nine_core.Store.Retention.Run.{
  Report, recount, counted_rows, close, resume_as, resume_one, resume_all, resume_unfinished,
  looking_unfinished, dropping_unfinished, stamping_unfinished,
}
use nine_core.Store.Retention.Run.Cases.{attempt-cases, step_on-cases}
use nine_core.Store.Retention.Run.Tracked.{IsTracked, Kept-IsTracked, stamp-Effect}
use nine_core.Store.Retention.Run.Resumes.{
  Resumes, Resumes-trans, Same-Resumes, IsCleared, IsReady, Resumes-IsReady, IsFound-IsReady,
  drop-Resumes, dropped-exists, gone, found_lem, IsCleared-name, stamp-Resumes, stamped-Closed,
}

module _ (d : Database) (c : Catalogue d) (n : Bytes) where
  abbrev pub V : Session d.State → View
  V s = c.view s.state

  -- How a resumed drop of `q` may end, from the view `v` on.
  abbrev Ends : View → Bytes → Result Dropped × Session d.State → Type 0
  Ends v q r =
      Resumes v (V r.1)
      × (IsTracked n v → IsTracked n (V r.1))
      × ((x : Dropped) → r.0 ≡ ok x → IsCleared q (V r.1))

  -- Steps that leave the catalogue as it is, or shrink it.
  abbrev Shrinks : View → View → Type 0
  Shrinks v v' = Resumes v v' × (IsTracked n v → IsTracked n v')

  Shrinks-trans : (x y z : View) → Shrinks x y → Shrinks y z → Shrinks x z
  Shrinks-trans x y z a b = (Resumes-trans x y z (a.0) (b.0), λ t. b.1 (a.1 t))

  Same-Shrinks : (v v' : View) → Same v v' → Shrinks v v'
  Same-Shrinks v v' s = (Same-Resumes v v' s, Kept-IsTracked n v v' (s.1 n))

  close-Ends :
      (u : Unfinished) (now k : ℕ) (b : Bool) (v : View) (s : Session d.State)
      → Shrinks v (V s)
      → v.owner u.id ≡ some u.name
      → (V s).exists u.name ≡ false
      → Ends v u.name (close d u now k b s)
  close-Ends u now k b v s sh w e =
      let w1 = sh.0.0 u.id u.name w in
      let f = c.effect (stamp u.id now) s.state in
      let v1 = V (ask d (stamp u.id now) s).1 in
      let a = (ask d (stamp u.id now) s).0 in
      let r1 = stamp-Resumes (V s) v1 u.id a (f.0) (f.1) in
      let tr = λ (t : IsTracked n v).
        stamp-Effect u.name n (V s) v1 now a u.id f
          (gone u.name n (V s) (V s) u.id w1 e (sh.1 t)) in
      let all = Resumes-trans v (V s) v1 (sh.0) r1 in
      step-cases (Ends v u.name) _ _ s (λ x z. (all, tr, λ y q. cc))
        (λ x z. (
          all,
          tr,
          λ y q. (
            r1.1 u.name e,
            stamped-Closed (V s) v1 u.id a x u.name
                (labelled-eq-ok (stamping_unfinished u.name) _ x z) (f.2) w1,
          ),
        ))

  unchanged : (s : Session d.State) → Shrinks (V s) (V s)
  unchanged s = Same-Shrinks (V s) (V s) (λ i m h. h, λ m. (refl, refl, refl))

  recount-Shrinks :
      (u : Unfinished) (now : ℕ) (s : Session d.State) → Shrinks (V s) (V (recount d u now s).1)
  recount-Shrinks u now s =
      let P : Result ℕ × Session d.State → Type 0 = λ r. Shrinks (V s) (V r.1) in
      let s1 = (ask d (count u.name) s).1 in
      let sh1 = Same-Shrinks (V s) (V s1) (c.effect (count u.name) s.state) in
      step-cases P _ _ s (λ e z. sh1)
        (λ k z.
          let s2 = (ask d (fill_record u.id k now) s1).1 in
          let sh2 =
            Shrinks-trans (V s) (V s1) (V s2) sh1
              (Same-Shrinks (V s1) (V s2) (c.effect (fill_record u.id k now) s1.state)) in
          step-cases P _ _ s1 (λ e z2. sh2) (λ x z2. sh2))

  -- The count, where it is taken, leaves the catalogue as it is.
  counted_rows-Shrinks :
      (u : Unfinished) (now : ℕ) (b : Bool) (k : Option ℕ) (s : Session d.State)
      → Shrinks (V s) (V (counted_rows d u now b k s).1)
  counted_rows-Shrinks u now true (some k) s = unchanged s
  counted_rows-Shrinks u now true none s = recount-Shrinks u now s
  counted_rows-Shrinks u now false k s = recount-Shrinks u now s

  resume_as-Ends :
      (u : Unfinished) (now : ℕ) (b : Bool) (k : Option ℕ) (s : Session d.State)
      → (V s).owner u.id ≡ some u.name
      → (b ≡ false → (V s).exists u.name ≡ false)
      → Ends (V s) u.name (resume_as d u now b k s)
  resume_as-Ends u now true k s w gone_if =
      let P = Ends (V s) u.name in
      let s1 = (counted_rows d u now u.counted k s).1 in
      let sh1 = counted_rows-Shrinks u now u.counted k s in
      let a = (ask d (drop_table u.name) s1).0 in
      let v2 = V (ask d (drop_table u.name) s1).1 in
      let f = c.effect (drop_table u.name) s1.state in
      step-cases P _ _ s (λ x z. (sh1.0, sh1.1, λ y q. cc))
        (λ m z.
          let sh2 = Shrinks-trans (V s) (V s1) v2 sh1 (drop-Resumes u.name n (V s1) v2 a f) in
          step-cases P _ _ s1 (λ x z2. (sh2.0, sh2.1, λ y q. cc))
            (λ x z2. close-Ends u now m true (V s) _ sh2 w (
              dropped-exists u.name n (V s1) v2 a x
                (labelled-eq-ok (dropping_unfinished u.name) _ x z2) f)))
  resume_as-Ends u now false (some k) s w gone_if =
      close-Ends u now k true (V s) s (unchanged s) w (gone_if refl)
  resume_as-Ends u now false none s w gone_if =
      close-Ends u now 0 false (V s) s (unchanged s) w (gone_if refl)

  -- The names of the drops are cleared.
  abbrev Clears : View → List Unfinished → Report × Session d.State → Type 0
  Clears v us r =
      Shrinks v (V r.1) × (r.0.1 ≡ none → All (λ (u : Unfinished). IsCleared u.name (V r.1)) us)

  resume_all-Clears :
      (us : List Unfinished) (now : ℕ) (out : List Dropped) (s : Session d.State)
      → All (IsReady (V s)) us
      → Clears (V s) us (resume_all d us now out s)
  unfolding resume_all resume_one
  resume_all-Clears [] now out s h = (unchanged s, λ e. tt)
  resume_all-Clears (u ∷ us) now out s (r, h) =
      let v = V s in
      let s1 = (resume_one d u now s).1 in
      let (re, tr, cleared) = resume_as-Ends u now u.on_disk u.rows s (r.0) (r.1) in
      let ready = All-map (IsReady v) (IsReady (V s1)) (λ x. Resumes-IsReady v (V s1) x re) us h in
      step_on-cases d (Clears v (u ∷ us)) out _ (resume_all d us now) s1 (λ e. ((re, tr), λ z. cc))
        (λ x z.
          let (sh, rest) = resume_all-Clears us now (out ++ x ∷ []) s1 ready in
          let (e, o) = cleared x z in
          (
            Shrinks-trans v (V s1) (V (resume_all d us now (out ++ x ∷ []) s1).1) (re, tr) sh,
            λ done. ((sh.0.1 u.name e, sh.0.2 u.name o), rest done),
          ))

  -- From the search on.
  pub resume_unfinished_lem :
      (now : ℕ) (s : Session d.State)
      → Shrinks (V s) (V (resume_unfinished d now s).1)
        × ((resume_unfinished d now s).0.1 ≡ none
            → (m : Bytes) → (V s).is_open m ≡ true
            → (V s).inherited m ≡ false
            → IsCleared m (V (resume_unfinished d now s).1))
  unfolding resume_unfinished
  resume_unfinished_lem now s =
      let v = V s in
      let a = (ask d find_unfinished s).0 in
      let s1 = (ask d find_unfinished s).1 in
      let (same, found) = c.effect find_unfinished s.state in
      let sh1 = Same-Shrinks v (V s1) same in
      attempt-cases d
        (λ r.
          Shrinks v (V r.1)
          × (r.0.1 ≡ none
              → (m : Bytes) → v.is_open m ≡ true
              → v.inherited m ≡ false
              → IsCleared m (V r.1)))
        _ _ s1 (λ e. (sh1, λ z. cc))
        (λ us z.
          let (all, every) = found_lem v a us (labelled-eq-ok looking_unfinished a us z) found in
          let ready =
            All-map (IsFound v) (IsReady (V s1))
              (λ u f. Resumes-IsReady v (V s1) u (sh1.0) (IsFound-IsReady v u f)) us all in
          let (sh, cleared) = resume_all-Clears us now [] s1 ready in
          (
            Shrinks-trans v (V s1) (V (resume_all d us now [] s1).1) sh1 sh,
            λ done m o i.
                IsCleared-name us m (V (resume_all d us now [] s1).1) (cleared done) (every m o i),
          ))

module _ (d : Database) (c : Catalogue d) where
  -- What a run left that stopped between the detach and the stamp is finished by the search that
  -- the next run begins with: if it ends without an error, every table with an open record that is
  -- no partition is gone, and its record closed.
  resume_unfinished-IsCleared :
      (now : ℕ) (s : Session d.State) (n : Bytes)
      → (resume_unfinished d now s).0.1 ≡ none
      → (c.view s.state).is_open n ≡ true
      → (c.view s.state).inherited n ≡ false
      → IsCleared n (c.view (resume_unfinished d now s).1.state)
  resume_unfinished-IsCleared now s n done o i = (resume_unfinished_lem d c n now s).1 done n o i
