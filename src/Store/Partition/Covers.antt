-- ===== src/Store/Partition/Covers.antt =====
-- internal/store/partition.go: what a maintained horizon holds, and a second run.
use nine_core.Common.{
  ℕ, zero, suc, ◌+◌, ◌-◌, ◌*◌, ◌/◌, ◌<◌, ◌≤◌, List, [], ◌∷◌, none, Bool, true, Bytes, bytes_eq_refl,
  ◌≡◌, refl, sym, ap, subst, ◌∙◌, arith, natural, inl, inr, Occurs,
}
use nine_core.Store.Session.{Database, Session}
use nine_core.Store.Catalogue.{Catalogue}
use nine_core.Store.Partition.{
  PartitionSpan, with_defaults, week, week_start, partition_name, first_week, rounds,
  ensure_partitions,
}
use nine_core.Store.Partition.Weeks.{week_start_lem}
use nine_core.Store.Partition.Names.{end_of_time}
use nine_core.Store.Partition.Horizon.{week_names, horizon, missing, with_all, first_week_lem}
use nine_core.Store.Partition.Bounds.{IsMade, ensure-IsMade}
use nine_core.Store.Partition.Refines.{tables, ensure_refines}

with_all-Occurs :
    (f : Bytes → Bool) (ns : List Bytes) (m : Bytes) → Occurs m ns → with_all f ns m ≡ true
with_all-Occurs f [] m o = absurd o
with_all-Occurs f (n ∷ ns) m (inl e) = rw (e, bytes_eq_refl n) refl
with_all-Occurs f (n ∷ ns) m (inr o) = rw (with_all-Occurs f ns m o) (ground arith)

missing_none :
    (f : Bytes → Bool) (ns : List Bytes)
    → ((m : Bytes) → Occurs m ns → f m ≡ true)
    → missing f ns ≡ []
missing_none f [] h = refl
missing_none f (n ∷ ns) h = rw (h n (inl refl)) (missing_none f ns (λ m o. h m (inr o)))

week_names-Occurs :
    (left i from : ℕ) → i < left → Occurs (partition_name (from + i * week)) (week_names left from)
week_names-Occurs zero i from h = absurd (omega arith)
week_names-Occurs (suc left) zero from h = inl (ap partition_name (omega arith))
week_names-Occurs (suc left) (suc i) from h =
    let e : from + suc i * week ≡ from + week + i * week = omega arith in
    inr (
      subst (λ x. Occurs (partition_name x) (week_names left (from + week))) (sym e)
        (week_names-Occurs left i (from + week) (omega arith)))

-- Which week of the horizon a moment near now lies in.
horizon_week :
    (now t : ℕ) (span : PartitionSpan)
    → now ≤ t + natural (with_defaults span).behind * week
    → t ≤ now + natural (with_defaults span).ahead * week
    → (i : ℕ) × (i < rounds span) × (week_start t ≡ first_week now span + i * week)
horizon_week now t span lo hi =
    let (now_le, now_lt, now_whole) = week_start_lem now in
    let (t_le, t_lt, t_whole) = week_start_lem t in
    let first_whole = first_week_lem now span in
    ((week_start t - first_week now span) / week, omega arith, omega arith)

horizon-Occurs :
    (now t : ℕ) (span : PartitionSpan)
    → now ≤ t + natural (with_defaults span).behind * week
    → t ≤ now + natural (with_defaults span).ahead * week
    → Occurs (partition_name (week_start t)) (horizon now span)
horizon-Occurs now t span lo hi =
    let (i, l, e) = horizon_week now t span lo hi in
    rw e (week_names-Occurs (rounds span) i (first_week now span) l)

module _ (d : Database) (c : Catalogue d) (now : ℕ) (span : PartitionSpan) (s : Session d.State)
    (created : List Bytes) (lt : first_week now span + rounds span * week < end_of_time)
    (done : (ensure_partitions d now span s).0 ≡ (created, none)) where
  -- If a run ends without an error and its horizon lies before the far end of the calendar, then
  -- behind it the week of every moment from the weeks behind now to the weeks ahead of it has a
  -- table of its name. That was there before the run, or the run created it, with bounds of one week
  -- that hold the moment, and the database answered without an error.
  pub ensure_covers :
      (t : ℕ)
      → now ≤ t + natural (with_defaults span).behind * week
      → t ≤ now + natural (with_defaults span).ahead * week
      → let end = (ensure_partitions d now span s).1 in
        (tables d c end (partition_name (week_start t)) ≡ true)
        × (week_start t ≤ t)
        × (t < week_start t + week)
        × IsMade d c (week_start t) s end
  ensure_covers t lo hi =
      let (is, all) = ensure_refines d c now span s created lt done in
      let (le, less, whole) = week_start_lem t in
      let (i, l, e) = horizon_week now t span lo hi in
      (
        all _ ∙ with_all-Occurs _ (horizon now span) _ (horizon-Occurs now t span lo hi),
        le,
        less,
        rw e (ensure-IsMade d c now span s created lt done i l),
      )

  -- If a run ends without an error and its horizon lies before the far end of the calendar, a
  -- second run right after it that ends without an error too creates nothing.
  pub ensure_again :
      (again : List Bytes)
      → (ensure_partitions d now span (ensure_partitions d now span s).1).0 ≡ (again, none)
      → again ≡ []
  ensure_again again h =
      let (is, all) = ensure_refines d c now span s created lt done in
      let (is', all') = ensure_refines d c now span (ensure_partitions d now span s).1 again lt h in
      is' ∙ missing_none _ (horizon now span) (λ m o. all m ∙ with_all-Occurs _ _ m o)
