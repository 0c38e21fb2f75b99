-- ===== src/Store/Retention/Run/Sight.antt =====
-- internal/store/retention.go: no table drops out of sight in a whole run.
use nine_core.Common.{
  ℕ, ◌+◌, List, [], ◌∷◌, ◌++◌, inl, inr, Option, none, some, Option-cases, Bytes, ℤ, natural, ◌==◌,
  ltb,
}
use nine_core.Store.Session.{
  connect, set_timeout, try_lock, unlock, read_clock, find_default, list_partitions, find_pending,
  Statement, Database, Session, ask,
}
use nine_core.Store.Catalogue.{Same, Catalogue}
use nine_core.Store.Partition.{PartitionSpan, minute}
use nine_core.Store.Retention.{Candidate, Dropped, floor, below, take_out}
use nine_core.Store.Retention.Run.{
  Report, drop_one, drop_all, resume_unfinished, pending_first, drop_past, resumed, locked_run,
  retain,
}
use nine_core.Store.Retention.Run.Cases.{attempt-cases, if-cases, step_on-cases}
use nine_core.Store.Retention.Run.Tracked.{IsTracked, Kept-IsTracked, drop_one-IsTracked}
use nine_core.Store.Retention.Run.Recovered.{resume_unfinished_lem}

module _ (d : Database) (c : Catalogue d) (n : Bytes) where
  abbrev In : Session d.State → Type 0
  In s = IsTracked n (c.view s.state)

  abbrev P : Report × Session d.State → Type 0
  P r = In r.1

  -- A statement that leaves the catalogue as it is.
  quiet :
      (q : Statement)
      → ((t : d.State) → Same (c.view t) (c.view (d.answer q t).1))
      → (s : Session d.State) → In s
      → In (ask d q s).1
  quiet q same s h =
      Kept-IsTracked n (c.view s.state) (c.view (ask d q s).1.state) ((same s.state).1 n) h

  drop_all-In :
      (cs : List Candidate) (now : ℕ) (out : List Dropped) (s : Session d.State)
      → In s
      → P (drop_all d cs now out s)
  unfolding drop_all
  drop_all-In [] now out s h = h
  drop_all-In (x ∷ cs) now out s h =
      let h1 = drop_one-IsTracked d c n x now s h in
      step_on-cases d P out _ (drop_all d cs now) _ (λ e. h1)
        (λ y z. drop_all-In cs now (out ++ y ∷ []) (drop_one d x now s).1 h1)

  pending_first-In :
      (m : Bytes) (cs : List Candidate) (now : ℕ) (out : List Dropped) (s : Session d.State)
      → In s
      → P (pending_first d m cs now out s)
  pending_first-In [] cs now out s h = drop_all-In cs now out s h
  pending_first-In (b ∷ m) cs now out s h = elim (Option-cases (take_out (b ∷ m) cs)) [
    | inl t ↦ rw (t, pending_first) h
    | inr (z, t) ↦ rw (t, pending_first) (drop_all-In (z.0 ∷ z.1) now out s h)
  ]

  module _ (parse : Bytes → Bytes → Option ℕ) where
    drop_past-In :
        (now keep : ℕ) (out : List Dropped) (s : Session d.State)
        → In s
        → P (drop_past d parse now keep out s)
    unfolding drop_past
    drop_past-In now keep out s h =
        let s1 = (ask d list_partitions s).1 in
        let h1 = quiet list_partitions (c.effect list_partitions) s h in
        attempt-cases d P _ _ _ (λ e. h1)
          (λ rows z.
            attempt-cases d P _ _ _ (λ e. h1)
              (λ cs k.
                let h2 = quiet find_pending (c.effect find_pending) s1 h1 in
                attempt-cases d P _ _ _ (λ e. h2) (λ p q. pending_first-In p cs now out _ h2)))

    resumed-In :
        (r : Report) (now keep : ℕ) (s : Session d.State) → In s → P (resumed d parse r now keep s)
    resumed-In (out, none) now keep s h = drop_past-In now keep out s h
    resumed-In (out, some e) now keep s h = h

    locked_run-In :
        (now keep : ℕ) (span : PartitionSpan) (s : Session d.State)
        → In s
        → P (locked_run d parse now keep span s)
    unfolding locked_run
    locked_run-In now keep span s h =
        let s1 = (ask d read_clock s).1 in
        let h1 = quiet read_clock (c.effect read_clock) s h in
        attempt-cases d P _ _ _ (λ e. h1)
          (λ db_now a.
            if-cases d P (ltb (db_now + minute) now) _ _ _ (λ t. h1)
              (λ t.
                if-cases d P (below keep (floor span)) _ _ _ (λ f. h1)
                  (λ f.
                    let s2 = (ask d find_default s1).1 in
                    let h2 = quiet find_default (λ t. (c.effect find_default t)) s1 h1 in
                    attempt-cases d P _ _ _ (λ e. h2)
                      (λ _ _.
                        resumed-In (resume_unfinished d now s2).0 now keep
                          (resume_unfinished d now s2).1
                          ((resume_unfinished_lem d c n now s2).0.1 h2)))))

    -- Whatever the database answers, and at whichever statement the run stops: a table that is a
    -- partition of events, or has an open record of its drop, does not drop out of sight. If it
    -- still exists behind the run, it is a partition or has an open record again.
    pub retain-IsTracked :
        (now : ℕ) (keep : ℤ) (span : PartitionSpan) (s : Session d.State)
        → IsTracked n (c.view s.state)
        → IsTracked n (c.view (retain d parse now keep span s).1.state)
    unfolding retain
    retain-IsTracked now keep span s h =
        if-cases d P (natural keep == 0) _ _ _ (λ z. h)
          (λ z.
            let s1 = (ask d connect s).1 in
            let h1 = quiet connect (c.effect connect) s h in
            attempt-cases d P _ _ _ (λ e. h1)
              (λ _ _.
                let s2 = (ask d set_timeout s1).1 in
                let h2 = quiet set_timeout (c.effect set_timeout) s1 h1 in
                attempt-cases d P _ _ _ (λ e. h2)
                  (λ _ _.
                    let s3 = (ask d try_lock s2).1 in
                    let h3 = quiet try_lock (c.effect try_lock) s2 h2 in
                    attempt-cases d P _ _ _ (λ e. h3)
                      (λ locked _.
                        if-cases d P locked _ _ _
                          (λ t.
                            quiet unlock (c.effect unlock)
                              (locked_run d parse now (natural keep) span s3).1
                              (locked_run-In now (natural keep) span s3 h3))
                          (λ t. h3)))))
