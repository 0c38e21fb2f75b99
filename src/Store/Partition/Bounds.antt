-- ===== src/Store/Partition/Bounds.antt =====
-- internal/store/partition.go: the bounds under which a run creates the tables of its horizon.
use nine_core.Common.{
  ℕ, zero, suc, ◌+◌, ◌*◌, ◌%◌, ◌<◌, List, [], ◌∷◌, ◌++◌, append_assoc, Option, none, Bool, true,
  Option-cases, false, Bool-cases, Bytes, bytes_eq, bytes_eq→eq, ◌≡◌, refl, sym, ap, subst, ◌∙◌,
  ◌⊎◌, arith, inl, inr, Occurs, Occurs-append_left, Occurs-append_right,
}
use nine_core.Errors.{GoError, ok, Result-cases, labelled-eq-ok}
use nine_core.Store.Session.{
  Entry, asked, connect, lock, unlock, find_default, exists_table, create_table, Database, Session,
  step-eq-ok, ask, query, refuse_default,
}
use nine_core.Store.Catalogue.{Catalogue}
use nine_core.Store.Partition.{
  PartitionSpan, week, partition_name, first_week, rounds, creating, looking_for, partitions,
  make_missing, make_week, make_weeks, ensure_partitions,
}
use nine_core.Store.Partition.Horizon.{first_week_lem}
use nine_core.Store.Partition.Names.{end_of_time, partition_name_inj}
use nine_core.Store.Partition.Refines.{tables, look_lem, make_week_lem, attempt-none}

-- The statements of a part of a run, behind those in front of it.
abbrev Grows : {S : Type 0} → List Entry → Session S → Session S → Type 0
Grows new s s' = s'.trace ≡ new ++ s.trace

-- A table with the bounds of its week was created without an error.
abbrev created_week : ℕ → Entry
created_week from = asked (create_table (partition_name from) from (from + week)) (ok tt)

-- Between two sessions it was.
abbrev pub IsCreated : {S : Type 0} → ℕ → Session S → Session S → Type 0
IsCreated from s s' = (new : List Entry) × Grows new s s' × Occurs (created_week from) new

Grows-trans :
    {S : Type 0} (a b : List Entry) (x y z : Session S)
    → Grows a x y
    → Grows b y z
    → Grows (b ++ a) x z
Grows-trans a b x y z f g = g ∙ ap (λ t. b ++ t) f ∙ sym (append_assoc b a x.trace)

module _ (d : Database) (c : Catalogue d) where
  -- The table of a week was there, or is created with its bounds.
  abbrev pub IsMade : ℕ → Session d.State → Session d.State → Type 0
  IsMade from s s' = (tables d c s (partition_name from) ≡ true) ⊎ IsCreated from s s'

  make_missing-IsMade :
      (from : ℕ) (b : Bool) (s0 s : Session d.State) (r : Option Bytes)
      → b ≡ tables d c s0 (partition_name from)
      → Grows (asked (exists_table (partition_name from)) (ok b) ∷ []) s0 s
      → (make_missing d (partition_name from) from b s).0 ≡ ok r
      → IsMade from s0 (make_missing d (partition_name from) from b s).1
        × ((new : List Entry) × Grows new s0 (make_missing d (partition_name from) from b s).1)
  make_missing-IsMade from true s0 s r is g h =
      (inl (sym is), (asked (exists_table (partition_name from)) (ok true) ∷ [], g))
  make_missing-IsMade from false s0 s r is g h =
      let n = partition_name from in
      let q = create_table n from (from + week) in
      let (u, made, rest, whole) = step-eq-ok _ _ s r h in
      let old = asked (exists_table n) (ok false) ∷ [] in
      let s1 = (ask d q s).1 in
      let new = asked q (ask d q s).0 ∷ old in
      let g1 : Grows new s0 s1 = ap (λ t. asked q (ask d q s).0 ∷ t) g in
      let done : (ask d q s).0 ≡ ok tt = labelled-eq-ok (creating n) _ u made in
      rw whole (inr (new, g1, inl (ap (asked q) (sym done))), (new, g1))

  make_week-IsMade :
      (from : ℕ) (s : Session d.State) (r : Option Bytes)
      → (make_week d from s).0 ≡ ok r
      → IsMade from s (make_week d from s).1
        × ((new : List Entry) × Grows new s (make_week d from s).1)
  unfolding make_week
  make_week-IsMade from s r h =
      let n = partition_name from in
      let q = exists_table n in
      let (b, found, rest, whole) = step-eq-ok _ _ s r h in
      let s1 = (ask d q s).1 in
      let there = labelled-eq-ok (looking_for n) _ b found in
      let (is, kept) = look_lem d c n s b there in
      rw whole (make_missing-IsMade from b s s1 r is (ap (λ a. asked q a ∷ s.trace) there) rest)

  -- What was made stays so, whatever the statements behind it.
  IsMade-grow :
      (from : ℕ) (new : List Entry) (s s1 s2 : Session d.State)
      → Grows new s1 s2
      → IsMade from s s1
      → IsMade from s s2
  IsMade-grow from new s s1 s2 g (inl t) = inl t
  IsMade-grow from new s s1 s2 g (inr (old, g0, o)) =
      inr (new ++ old, Grows-trans old new s s1 s2 g0 g, Occurs-append_right _ new old o)

  -- And what is made behind the first week, of which the table has another name.
  IsMade-later :
      (from at : ℕ) (s s1 s2 : Session d.State)
      → ((new : List Entry) × Grows new s s1)
      → tables d c s1 (partition_name at) ≡ tables d c s (partition_name at)
      → IsMade at s1 s2
      → IsMade at s s2
  IsMade-later from at s s1 s2 g same (inl t) = inl (sym same ∙ t)
  IsMade-later from at s s1 s2 (old, g) same (inr (new, g1, o)) =
      inr (new ++ old, Grows-trans old new s s1 s2 g g1, Occurs-append_left _ new old o)

  -- Two weeks have two names, before the end of time.
  other_name :
      (from at : ℕ)
      → from % week ≡ 0
      → at % week ≡ 0
      → from < at
      → at < end_of_time
      → bytes_eq (partition_name at) (partition_name from) ≡ false
  other_name from at hf ha lt far =
      elim (Bool-cases (bytes_eq (partition_name at) (partition_name from))) [
        | inl e ↦
            let q = partition_name_inj at from ha hf far (omega arith) (bytes_eq→eq _ _ e) in
            absurd (omega arith)
        | inr e ↦ e
      ]

  make_week-other :
      (from at : ℕ) (s : Session d.State) (r : Option Bytes)
      → (make_week d from s).0 ≡ ok r
      → bytes_eq (partition_name at) (partition_name from) ≡ false
      → tables d c (make_week d from s).1 (partition_name at) ≡ tables d c s (partition_name at)
  make_week-other from at s r h e =
      let after = (make_week_lem d c from s r h).1 (partition_name at) in
      elim (Bool-cases (tables d c s (partition_name from))) [
        | inl t ↦ rw t at after
        | inr t ↦ rw (t, e) at after
      ]

  -- The weeks that are made, and the statements that are added.
  abbrev AllMade : ℕ → ℕ → Session d.State → Session d.State → Type 0
  AllMade left from s s' =
      ((new : List Entry) × Grows new s s') × ((i : ℕ) → i < left → IsMade (from + i * week) s s')

  each_week :
      (left from : ℕ) (s s2 : Session d.State) (r : Option Bytes)
      → from % week ≡ 0
      → from + suc left * week < end_of_time
      → (make_week d from s).0 ≡ ok r
      → AllMade left (from + week) (make_week d from s).1 s2
      → (i : ℕ) → i < suc left
      → IsMade (from + i * week) s s2
  each_week left from s s2 r hm lt h ((new, g), rest) zero l =
      let s1 = (make_week d from s).1 in
      subst (λ z. IsMade z s s2) (omega arith)
        (IsMade-grow from new s s1 s2 g ((make_week-IsMade from s r h).0))
  each_week left from s s2 r hm lt h ((new, g), rest) (suc j) l =
      let s1 = (make_week d from s).1 in
      let at = from + suc j * week in
      let e : from + week + j * week ≡ at = omega arith in
      let other = other_name from at hm (omega arith) (omega arith) (omega arith) in
      IsMade-later from at s s1 s2 ((make_week-IsMade from s r h).1)
        (make_week-other from at s r h other) (subst (λ z. IsMade z s1 s2) e (rest j (omega arith)))

  AllMade-cons :
      (left from : ℕ) (s s2 : Session d.State) (r : Option Bytes)
      → from % week ≡ 0
      → from + suc left * week < end_of_time
      → (make_week d from s).0 ≡ ok r
      → AllMade left (from + week) (make_week d from s).1 s2
      → AllMade (suc left) from s s2
  AllMade-cons left from s s2 r hm lt h all =
      let s1 = (make_week d from s).1 in
      let (old, g) = (make_week-IsMade from s r h).1 in
      let (new, g2) = all.0 in
      ((new ++ old, Grows-trans old new s s1 s2 g g2), each_week left from s s2 r hm lt h all)

  make_weeks-AllMade :
      (left from : ℕ) (created : List Bytes) (s : Session d.State)
      → from % week ≡ 0
      → from + left * week < end_of_time
      → (make_weeks d left from created s).0.1 ≡ none
      → AllMade left from s (make_weeks d left from created s).1
  unfolding make_weeks
  make_weeks-AllMade zero from created s hm lt h = (([], refl), λ i l. absurd (omega arith))
  make_weeks-AllMade (suc left) from created s hm lt h =
      let s1 = (make_week d from s).1 in
      let P : List Bytes → Type 0 =
        λ o. AllMade (suc left) from s (make_weeks d left (from + week) o s1).1 in
      let rest : (o : List Bytes) (r : Option Bytes)
          → (make_week d from s).0 ≡ ok r
          → (make_weeks d left (from + week) o s1).0.1 ≡ none
          → P o =
        λ o r e k.
          AllMade-cons left from s (make_weeks d left (from + week) o s1).1 r hm lt e
            (make_weeks-AllMade left (from + week) o s1 (omega arith) (omega arith) k) in
      elim (Result-cases (make_week d from s).0) [
        | inr (x, e) ↦ cc (rw e at h)
        | inl (r, e) ↦ elim (Option-cases r) [
          | inl q ↦ rw (e, q) (rest created r e (rw (e, q) at h))
          | inr (n, q) ↦ rw (e, q) (rest (created ++ n ∷ []) r e (rw (e, q) at h))
        ]
      ]

  -- Every week of the horizon was there, or was created with its bounds.
  pub ensure-IsMade :
      (now : ℕ) (span : PartitionSpan) (s : Session d.State) (created : List Bytes)
      → first_week now span + rounds span * week < end_of_time
      → (ensure_partitions d now span s).0 ≡ (created, none)
      → (i : ℕ) → i < rounds span
      → IsMade (first_week now span + i * week) s (ensure_partitions d now span s).1
  unfolding ensure_partitions
  ensure-IsMade now span s created lt h i l =
      let (u1, r1, e1) = attempt-none d c _ _ _ created h in
      let s1 = (query d partitions connect s).1 in
      let h1 = rw e1 at h in
      let (u2, r2, e2) = attempt-none d c _ _ _ created h1 in
      let s2 = (query d partitions lock s1).1 in
      let h2 = rw e2 at h1 in
      let (u3, r3, e3) = attempt-none d c _ _ _ created h2 in
      let s3 = (refuse_default d s2).1 in
      let h3 = rw e3 at h2 in
      let at = first_week now span + i * week in
      let (all, each) =
        make_weeks-AllMade (rounds span) (first_week now span) [] s3 (first_week_lem now span) lt
          (ap (λ (o : List Bytes × Option GoError). o.1) h3) in
      let made = each i l in
      let same : tables d c s3 (partition_name at) ≡ tables d c s (partition_name at) =
        ((c.effect find_default s2.state).1 _).0
        ∙ ((c.effect lock s1.state).1 _).0
        ∙ ((c.effect connect s.state).1 _).0 in
      let s4 = (make_weeks d (rounds span) (first_week now span) [] s3).1 in
      let s5 = (ask d unlock s4).1 in
      let start =
        asked find_default (ask d find_default s2).0
        ∷ asked lock (ask d lock s1).0
        ∷ asked connect (ask d connect s).0
        ∷ [] in
      rw (e1, e2, e3)
        (IsMade-grow at (asked unlock (ask d unlock s4).0 ∷ []) s s4 s5 refl
          (IsMade-later (first_week now span) at s s3 s4 (start, refl) same made))
