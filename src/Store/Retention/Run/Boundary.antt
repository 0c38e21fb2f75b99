-- ===== src/Store/Retention/Run/Boundary.antt =====
-- internal/store/retention.go: the partitions that a run detaches are past the boundary.
use nine_core.Common.{
  ℕ, ◌<◌, ◌-◌, ◌+◌, ◌*◌, List, [], ◌∷◌, Option, none, some, Option-cases, Bytes, ltb, refl, sym, ap,
  inl, inr, ◌⊎◌, All, All-map, Occurs, ℤ, natural, ◌==◌, int_limit,
}
use nine_core.Errors.{Result, ok, labelled-eq-ok}
use nine_core.Store.Session.{
  Statement, Answer, Entry, asked, statement, connect, set_timeout, try_lock, unlock, read_clock,
  find_default, find_unfinished, list_partitions, find_pending, open_record, detach, count,
  fill_record, drop_table, stamp, lock, list_bounds, exists_table, create_table, Row, Database,
  Session,
}
use nine_core.Store.Partition.{PartitionSpan, week, minute, with_defaults}
use nine_core.Store.Retention.{Candidate, Dropped, floor, below, take_out}
use nine_core.Store.Retention.Weeks.{oldest_end, boundary-lt-oldest_end}
use nine_core.Store.Retention.Run.{
  Report, drop_all, pending_first, resume_unfinished, drop_past, resumed, locked_run, retain,
  retention,
}
use nine_core.Store.Retention.Run.Detaches.{Detaches, AllDetaches, drop_all-keeps, resume_all-keeps}
use nine_core.Store.Retention.Run.Cases.{attempt-cases, if-cases}
use nine_core.Store.Retention.Run.Past.{take_out-All, IsListed, IsPast, past_rows-IsListed}

weaken : (Q : Bytes → Type 0) (q : Statement) → Detaches (λ n. ⊥) q → Detaches Q q
weaken Q (detach n p) h = absurd h
weaken Q connect h = tt
weaken Q set_timeout h = tt
weaken Q try_lock h = tt
weaken Q unlock h = tt
weaken Q read_clock h = tt
weaken Q find_default h = tt
weaken Q find_unfinished h = tt
weaken Q list_partitions h = tt
weaken Q find_pending h = tt
weaken Q (open_record n f t) h = tt
weaken Q (count n) h = tt
weaken Q (fill_record i n t) h = tt
weaken Q (drop_table n) h = tt
weaken Q (stamp i t) h = tt
weaken Q lock h = tt
weaken Q list_bounds h = tt
weaken Q (exists_table n) h = tt
weaken Q (create_table n f t) h = tt

module _ (parse : Bytes → Bytes → Option ℕ) where
  -- Nothing was detached.
  abbrev pub IsIntact : List Entry → Type 0
  IsIntact = AllDetaches (λ n. ⊥)

  -- Nothing was detached, or only names that are past in a listing that the database gave.
  abbrev IsConfined : ℕ → List Entry → Type 0
  IsConfined boundary tr =
      IsIntact tr
      ⊎ ((rows : List Row) × Occurs (asked list_partitions (ok rows)) tr
          × AllDetaches (IsPast parse boundary rows) tr)

  module _ (d : Database) where
    drop_listed :
        (boundary : ℕ) (rows : List Row) (cs : List Candidate) (now : ℕ) (out : List Dropped)
        (s : Session d.State)
        → All (IsListed parse boundary rows) cs
        → Occurs (asked list_partitions (ok rows)) s.trace
        → IsIntact s.trace
        → Occurs (asked list_partitions (ok rows)) (drop_all d cs now out s).1.trace
          × AllDetaches (IsPast parse boundary rows) (drop_all d cs now out s).1.trace
    drop_listed boundary rows cs now out s a o i =
        let Q : Bytes → Type 0 = IsPast parse boundary rows in
        let past =
          All-map (IsListed parse boundary rows) (λ c. Q c.name) (λ c k. (c, refl, k)) cs a in
        drop_all-keeps Q (λ tr. Occurs (asked list_partitions (ok rows)) tr × AllDetaches Q tr)
          (λ q x tr dq h. (inr h.0, (dq, h.1))) d cs now out s past
          (
            o,
            All-map (λ x. Detaches (λ n. ⊥) (statement x)) (λ x. Detaches Q (statement x))
                (λ x. weaken Q (statement x)) s.trace i,
          )

    pending_first-IsConfined :
        (boundary : ℕ) (rows : List Row) (cs : List Candidate) (n : Bytes) (now : ℕ)
        (out : List Dropped) (s : Session d.State)
        → All (IsListed parse boundary rows) cs
        → Occurs (asked list_partitions (ok rows)) s.trace
        → IsIntact s.trace
        → IsConfined boundary (pending_first d n cs now out s).1.trace
    pending_first-IsConfined boundary rows cs [] now out s a o i =
        let (found, past) = drop_listed boundary rows cs now out s a o i in inr (rows, found, past)
    pending_first-IsConfined boundary rows cs (b ∷ n) now out s a o i =
        elim (Option-cases (take_out (b ∷ n) cs)) [
          | inl t ↦ rw (t, pending_first) (inl i)
          | inr (z, t) ↦
              let (pz, az) = take_out-All (IsListed parse boundary rows) (b ∷ n) cs z.0 z.1 t a in
              let (found, past) = drop_listed boundary rows (z.0 ∷ z.1) now out s (pz, az) o i in
              rw (t, pending_first) (inr (rows, found, past))
        ]

    drop_past-IsConfined :
        (now keep : ℕ) (out : List Dropped) (s : Session d.State)
        → IsIntact s.trace
        → IsConfined (now - keep) (drop_past d parse now keep out s).1.trace
    unfolding drop_past
    drop_past-IsConfined now keep out s i =
        let P : Report × Session d.State → Type 0 = λ r. IsConfined (now - keep) r.1.trace in
        attempt-cases d P _ _ _ (λ e. inl (tt, i))
          (λ rows h.
            attempt-cases d P _ _ _ (λ e. inl (tt, i))
              (λ cs k.
                attempt-cases d P _ _ _ (λ e. inl (tt, (tt, i)))
                  (λ p q.
                    pending_first-IsConfined (now - keep) rows cs p now out _
                      (past_rows-IsListed parse (now - keep) rows cs k)
                      (inr (
                        inl (ap (asked list_partitions) (sym (labelled-eq-ok retention _ rows h)))))
                      (tt, (tt, i)))))

    resume_unfinished-IsIntact :
        (now : ℕ) (s : Session d.State)
        → IsIntact s.trace
        → IsIntact (resume_unfinished d now s).1.trace
    unfolding resume_unfinished
    resume_unfinished-IsIntact now s i =
        attempt-cases d (λ r. IsIntact r.1.trace) _ _ _ (λ e. (tt, i))
          (λ us h.
            resume_all-keeps (λ n. ⊥) IsIntact (λ q x tr dq k. (dq, k)) d us now [] _ (tt, i))

    resumed-IsConfined :
        (p : Report) (now keep : ℕ) (s : Session d.State)
        → IsIntact s.trace
        → IsConfined (now - keep) (resumed d parse p now keep s).1.trace
    resumed-IsConfined (out, none) now keep s i = drop_past-IsConfined now keep out s i
    resumed-IsConfined (out, some e) now keep s i = inl i

    module _ (now : ℕ) (span : PartitionSpan)
        (h : natural (with_defaults span).behind * week < int_limit) where
      -- Nothing was detached, or only names that are past in a listing that the database gave,
      -- at a boundary before the end of the oldest week that the horizon keeps.
      abbrev pub IsSafe : ℕ → List Entry → Type 0
      IsSafe keep tr =
          IsIntact tr
          ⊎ ((rows : List Row) × (now - keep < oldest_end now span)
              × Occurs (asked list_partitions (ok rows)) tr
              × AllDetaches (IsPast parse (now - keep) rows) tr)

      IsConfined-IsSafe :
          (keep : ℕ) (tr : List Entry)
          → now - keep < oldest_end now span
          → IsConfined (now - keep) tr
          → IsSafe keep tr
      IsConfined-IsSafe keep tr lt (inl i) = inl i
      IsConfined-IsSafe keep tr lt (inr (rows, o, a)) = inr (rows, lt, o, a)

      IsSafe-grow :
          (keep : ℕ) (q : Statement) (a : Result (Answer q)) (tr : List Entry)
          → Detaches (λ n. ⊥) q
          → IsSafe keep tr
          → IsSafe keep (asked q a ∷ tr)
      IsSafe-grow keep q a tr n (inl i) = inl (n, i)
      IsSafe-grow keep q a tr n (inr (rows, lt, o, al)) =
          inr (rows, lt, inr o, (weaken (IsPast parse (now - keep) rows) q n, al))

      locked_run-IsSafe :
          (keep : ℕ) (s : Session d.State)
          → IsIntact s.trace
          → IsSafe keep (locked_run d parse now keep span s).1.trace
      unfolding locked_run
      locked_run-IsSafe keep s i =
          let P : Report × Session d.State → Type 0 = λ r. IsSafe keep r.1.trace in
          attempt-cases d P _ _ _ (λ e. inl (tt, i))
            (λ db_now a.
              if-cases d P (ltb (db_now + minute) now) _ _ _ (λ t. inl (tt, i))
                (λ t.
                  if-cases d P (below keep (floor span)) _ _ _ (λ f. inl (tt, i))
                    (λ f.
                      attempt-cases d P _ _ _ (λ e. inl (tt, (tt, i)))
                        (λ _ _.
                          IsConfined-IsSafe keep _ (boundary-lt-oldest_end now keep span h f) (
                            resumed-IsConfined (resume_unfinished d now _).0 now keep _
                              (resume_unfinished-IsIntact now _ (tt, (tt, i))))))))

      -- A run that starts with nothing detached detaches nothing, or only names of a listing that
      -- the database gave, with bounds that end at or before `now - keep`, where this boundary lies
      -- before the end of the oldest week that the horizon keeps, if the weeks kept behind are so
      -- few that a duration counts them.
      pub retain-IsSafe :
          (keep : ℤ) (s : Session d.State)
          → IsIntact s.trace
          → IsSafe (natural keep) (retain d parse now keep span s).1.trace
      unfolding retain
      retain-IsSafe keep s i =
          let P : Report × Session d.State → Type 0 = λ r. IsSafe (natural keep) r.1.trace in
          if-cases d P (natural keep == 0) _ _ _ (λ z. inl i)
            (λ z.
              attempt-cases d P _ _ _ (λ e. inl (tt, i))
                (λ _ _.
                  attempt-cases d P _ _ _ (λ e. inl (tt, (tt, i)))
                    (λ _ _.
                      attempt-cases d P _ _ _ (λ e. inl (tt, (tt, (tt, i))))
                        (λ locked _.
                          if-cases d P locked _ _ _
                            (λ t.
                              IsSafe-grow (natural keep) unlock _ _ tt
                                (locked_run-IsSafe (natural keep) _ (tt, (tt, (tt, i)))))
                            (λ t. inl (tt, (tt, (tt, i))))))))
