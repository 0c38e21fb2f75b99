-- ===== src/Store/Retention/Run/Finished.antt =====
-- internal/store/retention.go: a run without an error leaves nothing of what it should drop.
use nine_core.Common.{
  ℕ, ◌+◌, ◌-◌, refl, List, Option, none, some, true, false, Bytes, ◌≡◌, ◌∙◌, ◌⊎◌, inl, inr, Occurs,
  ℤ, natural, ◌==◌, ltb,
}
use nine_core.Errors.{ok}
use nine_core.Store.Session.{
  connect, set_timeout, try_lock, unlock, read_clock, find_default, list_partitions, asked, Row,
  Statement, Database, Session, ask,
}
use nine_core.Store.Catalogue.{View, Same, Catalogue}
use nine_core.Store.Partition.{PartitionSpan, minute}
use nine_core.Store.Retention.{floor, below}
use nine_core.Store.Retention.Run.{
  Report, drop_past, resume_unfinished, resumed, locked_run, then_unlock, retain,
}
use nine_core.Store.Retention.Run.Cases.{attempt-cases, if-cases}
use nine_core.Store.Retention.Run.Past.{IsPast}
use nine_core.Store.Retention.Run.Resumes.{IsCleared}
use nine_core.Store.Retention.Run.Recovered.{resume_unfinished_lem}
use nine_core.Store.Retention.Run.Leaves.{V, LeavesListed, drop_past-Leaves, Same-IsCleared}

-- An earlier run began to drop the table: it is no partition any more, and the record of its drop
-- is open. Or that drop is over.
abbrev IsBegun : Bytes → View → Type 0
IsBegun n v = ((v.is_open n ≡ true) × (v.inherited n ≡ false)) ⊎ IsCleared n v

Same-IsBegun : (v v' : View) (n : Bytes) → Same v v' → IsBegun n v → IsBegun n v'
Same-IsBegun v v' n s (inl (o, i)) = inl ((s.1 n).2 ∙ o, (s.1 n).1 ∙ i)
Same-IsBegun v v' n s (inr k) = inr (Same-IsCleared v v' n s k)

module _ (d : Database) (c : Catalogue d) (parse : Bytes → Bytes → Option ℕ) where
  abbrev Ends : ℕ → (Bytes → Type 0) → Report × Session d.State → Type 0
  Ends = LeavesListed d c parse

  weaker :
      (b : ℕ) (Q Q' : Bytes → Type 0) (r : Report × Session d.State)
      → ((n : Bytes) → Q n → Q' n)
      → Ends b Q' r
      → Ends b Q r
  weaker b Q Q' r f e h =
      let (rows, o, k) = e h in
      (rows, o, λ n due. k n (elim due [ inl p ↦ inl p | inr q ↦ inr (f n q) ]))

  -- A name that was begun before a statement that leaves the catalogue as it is.
  behind :
      (b : ℕ) (q : Statement) (s : Session d.State) (r : Report × Session d.State)
      → Same (V d c s) (V d c (ask d q s).1)
      → Ends b (λ n. IsBegun n (V d c (ask d q s).1)) r
      → Ends b (λ n. IsBegun n (V d c s)) r
  behind b q s r same =
      weaker b _ _ r (λ n h. Same-IsBegun (V d c s) (V d c (ask d q s).1) n same h)

  resumed-Ends :
      (p : Report) (now keep : ℕ) (s : Session d.State)
      → Ends (now - keep) (λ n. p.1 ≡ none → IsCleared n (V d c s)) (resumed d parse p now keep s)
  resumed-Ends (out, none) now keep s =
      weaker (now - keep) _ _ (drop_past d parse now keep out s) (λ n h. h refl)
        (drop_past-Leaves d c parse now keep out s)
  resumed-Ends (out, some e) now keep s = λ h. cc

  found_and_dropped :
      (now keep : ℕ) (s : Session d.State)
      → Ends
          (now - keep)
          (λ n. IsBegun n (V d c s))
          (resumed d parse (resume_unfinished d now s).0 now keep (resume_unfinished d now s).1)
  found_and_dropped now keep s =
      let r = (resume_unfinished d now s).0 in
      let s1 = (resume_unfinished d now s).1 in
      weaker (now - keep) _ _ (resumed d parse r now keep s1)
        (λ n h done.
          let (sh, cleared) = resume_unfinished_lem d c n now s in
          elim h [ inl (o, i) ↦ cleared done n o i | inr (e, o) ↦ (sh.0.1 n e, sh.0.2 n o) ])
        (resumed-Ends r now keep s1)

  locked_run-Ends :
      (now keep : ℕ) (span : PartitionSpan) (s : Session d.State)
      → Ends (now - keep) (λ n. IsBegun n (V d c s)) (locked_run d parse now keep span s)
  unfolding locked_run
  locked_run-Ends now keep span s =
      let P = Ends (now - keep) (λ n. IsBegun n (V d c s)) in
      let s1 = (ask d read_clock s).1 in
      attempt-cases d P _ _ s1 (λ e h. cc)
        (λ db_now a.
          if-cases d P (ltb (db_now + minute) now) _ _ s1 (λ t h. cc)
            (λ t.
              if-cases d P (below keep (floor span)) _ _ s1 (λ f h. cc)
                (λ f.
                  let s2 = (ask d find_default s1).1 in
                  attempt-cases d P _ _ s2 (λ e h. cc)
                    (λ _ _.
                      let p = (resume_unfinished d now s2).0 in
                      let r = resumed d parse p now keep (resume_unfinished d now s2).1 in
                      behind (now - keep) read_clock s r (c.effect read_clock s.state) (
                        behind (now - keep) find_default s1 r (c.effect find_default s1.state)
                          (found_and_dropped now keep s2))))))

  -- The deferred unlock leaves the catalogue as it is.
  unlocked :
      (now keep : ℕ) (span : PartitionSpan) (s : Session d.State)
      → Ends
          (now - keep)
          (λ n. IsBegun n (V d c s))
          (then_unlock d parse (locked_run d parse now keep span) s)
  unlocked now keep span s h =
      let u = (locked_run d parse now keep span s).1 in
      let (rows, o, k) = locked_run-Ends now keep span s h in
      (
        rows,
        inr o,
        λ n due.
            Same-IsCleared (V d c u) (V d c (ask d unlock u).1) n (c.effect unlock u.state)
              (k n due),
      )

  -- Every name that is past in the listing, or whose drop was begun before, is cleared behind.
  abbrev pub IsSwept : ℕ → List Row → View → View → Type 0
  IsSwept b rows v v' = (n : Bytes) → IsPast parse b rows n ⊎ IsBegun n v → IsCleared n v'

  -- Behind a run of Retain without an error, by what the documentation of the database says of its
  -- statements: every partition whose bounds end at or before `now - keep` in a listing that the
  -- database gave, and every table whose drop an earlier run began or finished, does not exist and
  -- has no open record of its drop.
  pub retain-IsSwept :
      (now : ℕ) (keep : ℤ) (span : PartitionSpan) (s : Session d.State)
      → (retain d parse now keep span s).0.1 ≡ none
      → (rows : List Row) × Occurs
          (asked list_partitions (ok rows))
          (retain d parse now keep span s).1.trace
        × IsSwept
            (now - natural keep)
            rows
            (c.view s.state)
            (c.view (retain d parse now keep span s).1.state)
  unfolding retain
  retain-IsSwept now keep span s =
      let b = now - natural keep in
      let P = Ends b (λ n. IsBegun n (V d c s)) in
      let s1 = (ask d connect s).1 in
      let s2 = (ask d set_timeout s1).1 in
      let s3 = (ask d try_lock s2).1 in
      if-cases d P (natural keep == 0) _ _ s (λ z h. cc)
        (λ z.
          attempt-cases d P _ _ s1 (λ e h. cc)
            (λ _ _.
              attempt-cases d P _ _ s2 (λ e h. cc)
                (λ _ _.
                  attempt-cases d P _ _ s3 (λ e h. cc)
                    (λ locked _.
                      if-cases d P locked _ _ s3
                        (λ t.
                          let r =
                            then_unlock d parse (locked_run d parse now (natural keep) span) s3 in
                          behind b connect s r (c.effect connect s.state) (
                            behind b set_timeout s1 r (c.effect set_timeout s1.state) (
                              behind b try_lock s2 r (c.effect try_lock s2.state)
                                (unlocked now (natural keep) span s3))))
                        (λ t h. cc)))))
