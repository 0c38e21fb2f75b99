-- ===== src/Maintainer/Order.antt =====
-- cmd/partition/main.go: what stands before the first drop.
use nine_core.Common.{
  ℕ, zero, suc, ◌+◌, ◌*◌, ◌<◌, ◌≤◌, List, [], ◌∷◌, ◌++◌, Option, none, some, Bool, true, false,
  Bool-cases, Bytes, ◌≡◌, refl, ap, ◌⊎◌, inl, inr, ◌==◌, ℤ, natural,
}
use nine_core.Errors.{GoError, Result, ok, err, Result-cases}
use nine_core.Store.Session.{Statement, Answer, Entry, asked, Database, Session}
use nine_core.Store.Catalogue.{Catalogue}
use nine_core.Store.Partition.{
  PartitionSpan, with_defaults, week, week_start, partition_name, first_week, rounds, Created, E,
  make_missing, make_week, note_week, make_weeks, attempt, ensure_partitions, listing,
}
use nine_core.Store.Partition.Names.{end_of_time}
use nine_core.Store.Partition.Refines.{tables}
use nine_core.Store.Partition.Covers.{ensure_covers}
use nine_core.Store.Retention.Run.Detaches.{Detaches, step-keeps}
use nine_core.Store.Retention.Run.Boundary.{IsIntact}
use nine_core.Maintainer.{list_only, behind, maintain}

module _ (d : Database) (parse : Bytes → Bytes → Option ℕ) where
  abbrev Intact : Session d.State → Type 0
  Intact s = IsIntact parse s.trace

  grow :
      (q : Statement) (a : Result (Answer q)) (tr : List Entry)
      → Detaches (λ n. ⊥) q
      → IsIntact parse tr
      → IsIntact parse (asked q a ∷ tr)
  grow q a tr n i = (n, i)

  make_missing-Intact :
      (name : Bytes) (from : ℕ) (there : Bool) (s : Session d.State)
      → Intact s
      → Intact (make_missing d name from there s).1
  make_missing-Intact name from true s i = i
  make_missing-Intact name from false s i =
      step-keeps (λ n. ⊥) (IsIntact parse) grow d _ _ s (tt, i) (λ a j. j)

  make_week-Intact : (from : ℕ) (s : Session d.State) → Intact s → Intact (make_week d from s).1
  unfolding make_week
  make_week-Intact from s i =
      step-keeps (λ n. ⊥) (IsIntact parse) grow d _ _ s (tt, i)
        (λ there j. make_missing-Intact (partition_name from) from there _ j)

  note_week-Intact :
      (created : List Bytes) (r : Result (Option Bytes)) (k : List Bytes → E d)
      (s : Session d.State)
      → Intact s
      → ((x : List Bytes) → Intact (k x s).1)
      → Intact (note_week d created r k s).1
  note_week-Intact created (ok none) k s i h = h created
  note_week-Intact created (ok (some name)) k s i h = h (created ++ name ∷ [])
  note_week-Intact created (err e) k s i h = i

  make_weeks-Intact :
      (left from : ℕ) (created : List Bytes) (s : Session d.State)
      → Intact s
      → Intact (make_weeks d left from created s).1
  unfolding make_weeks
  make_weeks-Intact zero from created s i = i
  make_weeks-Intact (suc left) from created s i =
      let j = make_week-Intact from s i in
      note_week-Intact created (make_week d from s).0 (make_weeks d left (from + week))
        (make_week d from s).1 j
        (λ x. make_weeks-Intact left (from + week) x (make_week d from s).1 j)

  -- What holds of a refusal, and of what follows an answer.
  attempt-cases :
      {A : Type 0} (P : Created × Session d.State → Type 0) (r : Result A) (k : A → E d)
      (s : Session d.State)
      → ((e : GoError) → P (([], some e), s))
      → ((a : A) → P (k a s))
      → P (attempt d r k s)
  unfolding attempt
  attempt-cases P (ok a) k s f g = g a
  attempt-cases P (err e) k s f g = f e

  ensure_partitions-Intact :
      (now : ℕ) (span : PartitionSpan) (s : Session d.State)
      → Intact s
      → Intact (ensure_partitions d now span s).1
  unfolding ensure_partitions
  ensure_partitions-Intact now span s i =
      let P : Created × Session d.State → Type 0 = λ r. Intact r.1 in
      attempt-cases P _ _ _ (λ e. (tt, i))
        (λ _.
          attempt-cases P _ _ _ (λ e. (tt, (tt, i)))
            (λ _. (
              tt,
              attempt-cases P _ _ _ (λ e. (tt, (tt, (tt, i))))
                  (λ _.
                    make_weeks-Intact (rounds span) (first_week now span) [] _ (tt, (tt, (tt, i)))),
            )))

  listing-Intact : (s : Session d.State) → Intact s → Intact (listing d s).1
  unfolding listing
  listing-Intact s i =
      step-keeps (λ n. ⊥) (IsIntact parse) grow d _ _ s (tt, i)
        (λ u j. step-keeps (λ n. ⊥) (IsIntact parse) grow d _ _ _ (tt, j) (λ rows k. k))

  module _ (c : Catalogue d) (date_only : ℕ → Bytes)
      (ranged : List (Bytes × Bytes) → List (Bytes × Bytes)) (now later : ℕ) (span : PartitionSpan)
      (lt : first_week now span + rounds span * week < end_of_time) where
    list_only-Intact :
        (s : Session d.State) → Intact s → Intact (list_only date_only d parse ranged s).1
    list_only-Intact s i = elim (Result-cases (listing d s).0) [
      | inl (parts, q) ↦ rw (q, list_only) (listing-Intact s i)
      | inr (e, q) ↦ rw (q, list_only) (listing-Intact s i)
    ]

    behind-Intact :
        (o : Created) (keep : ℤ) (s : Session d.State)
        → Intact s
        → Intact (behind date_only d parse ranged o later span keep s).1
          ⊎ ((o.1 ≡ none) × ((natural keep == 0) ≡ false))
    behind-Intact (created, some e) keep s i = inl i
    behind-Intact (created, none) keep s i = elim (Bool-cases (natural keep == 0)) [
      | inl z ↦ inl (rw (z, behind) i)
      | inr z ↦ inr (refl, z)
    ]

    -- The week of `t` has its table behind the first half of a run.
    abbrev pub HasWeek : ℕ → Session d.State → Type 0
    HasWeek t s =
        tables d c (ensure_partitions d now span s).1 (partition_name (week_start t)) ≡ true

    -- Before a run of the maintainer detaches its first partition, it was asked to retain and not
    -- to list, and the week of every moment from the weeks behind now to the weeks ahead of it has
    -- its table, if the horizon lies before the far end of the calendar.
    pub maintain-IsIntact :
        (list : Bool) (keep : ℤ) (s : Session d.State) (t : ℕ)
        → now ≤ t + natural (with_defaults span).behind * week
        → t ≤ now + natural (with_defaults span).ahead * week
        → IsIntact parse s.trace
        → IsIntact parse (maintain date_only d parse ranged list now later span keep s).1.trace
          ⊎ ((list ≡ false) × ((natural keep == 0) ≡ false) × HasWeek t s)
    unfolding maintain
    maintain-IsIntact true keep s t lo hi i = inl (list_only-Intact s i)
    maintain-IsIntact false keep s t lo hi i =
        let o = (ensure_partitions d now span s).0 in
        let j = ensure_partitions-Intact now span s i in
        elim (behind-Intact o keep (ensure_partitions d now span s).1 j) [
          | inl k ↦ inl k
          | inr (q, z) ↦
              let done : o ≡ (o.0, none) = ap (λ x. (o.0, x)) q in
              inr (refl, z, (ensure_covers d c now span s o.0 lt done t lo hi).0)
        ]
