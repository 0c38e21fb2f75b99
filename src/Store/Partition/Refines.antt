-- ===== src/Store/Partition/Refines.antt =====
-- internal/store/partition.go: what a run makes of the catalogue.
use nine_core.Common.{
  ℕ, zero, suc, ◌+◌, ◌*◌, ◌%◌, ◌<◌, List, [], ◌∷◌, ◌++◌, append_assoc, append-nil, Option, none,
  some, Bool, true, false, ◌||◌, Bool-cases, Bytes, bytes_eq, bytes_eq→eq, if◌then◌else◌, ◌≡◌, refl,
  All-each, sym, ap, ◌∙◌, arith, inl, inr, All-map,
}
use nine_core.Errors.{Result, ok, err, Result-cases, labelled-eq-ok}
use nine_core.Store.Session.{
  connect, lock, unlock, find_default, exists_table, create_table, Database, Session, step-eq-ok,
  ask, query, refuse_default,
}
use nine_core.Store.Catalogue.{Catalogue}
use nine_core.Store.Partition.{
  PartitionSpan, week, partition_name, first_week, rounds, E, looking_for, creating, partitions,
  make_missing, make_week, make_weeks, attempt, ensure_partitions,
}
use nine_core.Store.Partition.Horizon.{
  week_names, horizon, missing, with_all, missing-ext, with_all-ext, with_all_first, with_all_there,
  later_names, first_week_lem,
}
use nine_core.Store.Partition.Names.{end_of_time}

module _ (d : Database) (c : Catalogue d) where
  -- The tables of a session.
  abbrev pub tables : Session d.State → Bytes → Bool
  tables s = (c.view s.state).exists

  -- A look for a table.
  pub look_lem :
      (n : Bytes) (s : Session d.State) (b : Bool)
      → (ask d (exists_table n) s).0 ≡ ok b
      → (b ≡ tables s n) × ((m : Bytes) → tables (ask d (exists_table n) s).1 m ≡ tables s m)
  look_lem n s b h =
      let (same, tells) = c.effect (exists_table n) s.state in (rw h at tells, λ m. (same.1 m).0)

  -- A table that was created.
  create_lem :
      (n : Bytes) (f t : ℕ) (s : Session d.State)
      → (ask d (create_table n f t) s).0 ≡ ok tt
      → (m : Bytes) → tables (ask d (create_table n f t) s).1 m ≡ (bytes_eq m n || tables s m)
  create_lem n f t s h m =
      let (only, done) = c.effect (create_table n f t) s.state in
      elim (Bool-cases (bytes_eq m n)) [
        | inl e ↦ rw (e, bytes_eq→eq m n e) ((rw h at done).0)
        | inr e ↦ rw e ((only.1 m e).0)
      ]

  -- What a week that did not fail did: nothing if it was there, and its table otherwise.
  make_missing_lem :
      (n : Bytes) (from : ℕ) (b : Bool) (s : Session d.State) (r : Option Bytes)
      → (make_missing d n from b s).0 ≡ ok r
      → (r ≡ (if b then none else some n))
        × ((m : Bytes)
            → tables (make_missing d n from b s).1 m
              ≡ (if b then tables s m else (bytes_eq m n || tables s m)))
  make_missing_lem n from true s r h = (cc, λ m. refl)
  make_missing_lem n from false s r h =
      let (u, made, rest, whole) = step-eq-ok _ _ s r h in
      (
        cc,
        λ m. rw whole (create_lem n from (from + week) s (labelled-eq-ok (creating n) _ u made) m),
      )

  pub make_week_lem :
      (from : ℕ) (s : Session d.State) (r : Option Bytes)
      → (make_week d from s).0 ≡ ok r
      → let n = partition_name from in
        (r ≡ (if tables s n then none else some n))
        × ((m : Bytes)
            → tables (make_week d from s).1 m
              ≡ (if tables s n then tables s m else (bytes_eq m n || tables s m)))
  unfolding make_week
  make_week_lem from s r h =
      let n = partition_name from in
      let (b, found, rest, whole) = step-eq-ok _ _ s r h in
      let s1 = (ask d (exists_table n) s).1 in
      let (is, kept) = look_lem n s b (labelled-eq-ok (looking_for n) _ b found) in
      let (made, after) = make_missing_lem n from b s1 r rest in
      (rw (← is) made, λ m. rw whole (after m ∙ rw (kept m, is) refl))

  make_weeks_lem :
      (left from : ℕ) (created out : List Bytes) (s : Session d.State)
      → from % week ≡ 0
      → from + left * week < end_of_time
      → (make_weeks d left from created s).0 ≡ (out, none)
      → (out ≡ created ++ missing (tables s) (week_names left from))
        × ((m : Bytes)
            → tables (make_weeks d left from created s).1 m
              ≡ with_all (tables s) (week_names left from) m)
  unfolding make_weeks
  make_weeks_lem zero from created out s hm lt h =
      let e : created ≡ out = cc in (rw append-nil (sym e), λ m. refl)
  make_weeks_lem (suc left) from created out s hm lt h =
      elim (Result-cases (make_week d from s).0) [
        | inr (x, e) ↦ cc (rw e at h)
        | inl (r, e) ↦
            let n = partition_name from in
            let ns = week_names left (from + week) in
            let s1 = (make_week d from s).1 in
            let (is, after) = make_week_lem from s r e in
            elim (Bool-cases (tables s n)) [
              | inl there ↦
                  let none_made : r ≡ none = rw there at is in
                  let (outs, all) =
                    make_weeks_lem left (from + week) created out s1 (omega arith) (omega arith)
                      (rw (e, none_made) at h) in
                  let same : (m : Bytes) → tables s1 m ≡ tables s m = λ m. rw there at (after m) in
                  (
                    rw there (
                        outs
                        ∙ ap (λ x. created ++ x)
                            (missing-ext (tables s1) (tables s) ns (All-each _ ns same))),
                    λ m.
                        rw (e, none_made)
                          (all m
                            ∙ with_all-ext (tables s1) (tables s) ns m (same m)
                            ∙ with_all_there (tables s) n ns m there),
                  )
              | inr absent ↦
                  let made : r ≡ some n = rw absent at is in
                  let (outs, all) =
                    make_weeks_lem left (from + week) (created ++ n ∷ []) out s1 (omega arith)
                      (omega arith) (rw (e, made) at h) in
                  let more : (m : Bytes) → tables s1 m ≡ (bytes_eq m n || tables s m) =
                    λ m. rw absent at (after m) in
                  let same =
                    All-map (λ m. bytes_eq m n ≡ false) (λ m. tables s1 m ≡ tables s m)
                      (λ m q. more m ∙ rw q refl) ns
                      (later_names from (from + week) left hm (omega arith) (omega arith)
                        (omega arith)) in
                  (
                    rw absent (
                        outs
                        ∙ append_assoc created (n ∷ []) (missing (tables s1) ns)
                        ∙ ap (λ x. created ++ (n ∷ x))
                            (missing-ext (tables s1) (tables s) ns same)),
                    λ m.
                        rw (e, made)
                          (all m
                            ∙ with_all-ext (tables s1) (λ k. bytes_eq k n || tables s k) ns m
                                (more m)
                            ∙ with_all_first (tables s) n ns m),
                  )
            ]
      ]

  pub attempt-none :
      {A : Type 0} (r : Result A) (k : A → E d) (s : Session d.State) (out : List Bytes)
      → (attempt d r k s).0 ≡ (out, none)
      → (a : A) × (r ≡ ok a) × (attempt d r k s ≡ k a s)
  unfolding attempt
  attempt-none (ok a) k s out h = (a, refl, refl)
  attempt-none (err e) k s out h = cc

  -- A run that ends without an error has created exactly the names of its horizon that were not
  -- there, in their order, and leaves the tables that were there and those of the horizon, if the
  -- horizon lies before the far end of the calendar.
  pub ensure_refines :
      (now : ℕ) (span : PartitionSpan) (s : Session d.State) (created : List Bytes)
      → first_week now span + rounds span * week < end_of_time
      → (ensure_partitions d now span s).0 ≡ (created, none)
      → (created ≡ missing (tables s) (horizon now span))
        × ((m : Bytes)
            → tables (ensure_partitions d now span s).1 m
              ≡ with_all (tables s) (horizon now span) m)
  unfolding ensure_partitions
  ensure_refines now span s created lt h =
      let (u1, r1, e1) = attempt-none _ _ _ created h in
      let s1 = (query d partitions connect s).1 in
      let h1 = rw e1 at h in
      let (u2, r2, e2) = attempt-none _ _ _ created h1 in
      let s2 = (query d partitions lock s1).1 in
      let h2 = rw e2 at h1 in
      let (u3, r3, e3) = attempt-none _ _ _ created h2 in
      let s3 = (refuse_default d s2).1 in
      let h3 = rw e3 at h2 in
      let (is, all) =
        make_weeks_lem (rounds span) (first_week now span) [] created s3 (first_week_lem now span)
          lt h3 in
      let same : (m : Bytes) → tables s3 m ≡ tables s m = λ m.
        (((c.effect find_default s2.state).1 m).0
          ∙ ((c.effect lock s1.state).1 m).0
          ∙ ((c.effect connect s.state).1 m).0) in
      let ns = horizon now span in
      (
        is ∙ missing-ext (tables s3) (tables s) ns (All-each _ ns same),
        λ m.
            rw (e1, e2, e3)
              (((c.effect unlock _).1 m).0
                ∙ all m
                ∙ with_all-ext (tables s3) (tables s) ns m (same m)),
      )
