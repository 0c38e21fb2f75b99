-- ===== src/Store/Retention/Run/Order.antt =====
-- internal/store/retention.go: the order of the statements of one drop.
use nine_core.Common.{
  ℕ, zero, suc, ◌≤◌, arith, Bool-cases, List, [], ◌∷◌, true, Bytes, codes, ◌≡◌, refl, ◌⊎◌, inl, inr,
}
use nine_core.Errors.{GoError, Result, ok, err, labelled-eq-err, labelled-eq-ok, errors_is, no_rows}
use nine_core.Store.Session.{
  Entry, asked, ask, open_record, detach, count, fill_record, drop_table, stamp, Database, Session,
  step-cases, IsRefused,
}
use nine_core.Store.Retention.{Candidate, Dropped, opened}
use nine_core.Store.Retention.Run.{drop_one, about, dropping}

-- The first `k` of some entries, the latest first, behind what was there.
abbrev issued : List Entry → ℕ → List Entry → List Entry
issued qs zero before = before
issued [] (suc k) before = before
issued (q ∷ qs) (suc k) before = issued qs k (q ∷ before)

-- What the database answers to the statements of a drop.
pub record Answers : Type 0 where
  opening : Result ℕ
  detaching : Result (Unit {0})
  counting : Result ℕ
  filling : Result (Unit {0})
  pub dropping : Result (Unit {0})
  stamping : Result (Unit {0})

abbrev drop_steps : Candidate → ℕ → ℕ → ℕ → Answers → List Entry
drop_steps c now id rows a =
    asked (open_record c.name c.from c.to) a.opening
    ∷ asked (detach c.name c.detach_is_pending) a.detaching
    ∷ asked (count c.name) a.counting
    ∷ asked (fill_record id rows now) a.filling
    ∷ asked (drop_table c.name) a.dropping
    ∷ asked (stamp id now) a.stamping
    ∷ []

abbrev pub as_dropped : Candidate → ℕ → Dropped
as_dropped c n = record {
  name = c.name;
  range_start = c.from;
  range_end = c.to;
  rows = n;
  counted = true;
}

module _ {S : Type 0} (c : Candidate) (now : ℕ) (before : List Entry) where
  -- A run of some of the steps, and how it ended. From the second step on `id` is the number that
  -- the database gave the record, and from the fourth on `rows` is what it counted.
  abbrev pub IsOrdered : Result Dropped × Session S → Type 0
  IsOrdered (r, s) =
      (id rows k : ℕ) × (a : Answers) × (s.trace ≡ issued (drop_steps c now id rows a) k before)
      × ((k ≤ 1) ⊎ (a.opening ≡ ok id))
      × ((k ≤ 3) ⊎ (a.counting ≡ ok rows))
      × (((e : GoError) × (r ≡ err e) × IsRefused s.trace)
          ⊎ ((k ≡ 6) × (r ≡ ok (as_dropped c rows))))

opened-eq-err :
    (n : Bytes) (a : Result ℕ) (e : GoError) → opened n a ≡ err e → (x : GoError) × (a ≡ err x)
opened-eq-err n (ok a) e h = cc
opened-eq-err n (err x) e h = (x, refl)

opened-eq-ok : (n : Bytes) (a : Result ℕ) (id : ℕ) → opened n a ≡ ok id → a ≡ ok id
opened-eq-ok n (ok i) id h = cc
opened-eq-ok n (err x) id h = elim (Bool-cases (errors_is x no_rows)) [
  | inl z ↦ cc (rw z at h)
  | inr z ↦ cc (rw z at h)
]

module _ (d : Database) (c : Candidate) (now : ℕ) (s : Session d.State) where
  abbrev Ends : Result Dropped × Session d.State → Type 0
  Ends = IsOrdered c now s.trace

  -- The sessions behind the six statements, and their answers.
  abbrev s1 : Session d.State
  s1 = (ask d (open_record c.name c.from c.to) s).1

  abbrev s2 : Session d.State
  s2 = (ask d (detach c.name c.detach_is_pending) s1).1

  abbrev s3 : Session d.State
  s3 = (ask d (count c.name) s2).1

  abbrev s4 : ℕ → ℕ → Session d.State
  s4 id rows = (ask d (fill_record id rows now) s3).1

  abbrev s5 : ℕ → ℕ → Session d.State
  s5 id rows = (ask d (drop_table c.name) (s4 id rows)).1

  abbrev answered : ℕ → ℕ → Answers
  answered id rows = record {
    opening = (ask d (open_record c.name c.from c.to) s).0;
    detaching = (ask d (detach c.name c.detach_is_pending) s1).0;
    counting = (ask d (count c.name) s2).0;
    filling = (ask d (fill_record id rows now) s3).0;
    dropping = (ask d (drop_table c.name) (s4 id rows)).0;
    stamping = (ask d (stamp id now) (s5 id rows)).0;
  }

  -- A drop first writes its record, then detaches, counts, fills the count in, drops the table and
  -- stamps the record, each at most once and in this order, and nothing else. It fills in and stamps
  -- the record that the database opened for it, and it fills in and reports what the database
  -- counted. It ends early only at a statement that the database refused, and with an error;
  -- otherwise it asks all six.
  pub drop_one-IsOrdered : Ends (drop_one d c now s)
  unfolding drop_one
  drop_one-IsOrdered =
      step-cases Ends _ _ s
        (λ e h. (
          0,
          0,
          1,
          answered 0 0,
          refl,
          inl (omega arith),
          inl (omega arith),
          inl (e, refl, opened-eq-err _ _ e h),
        ))
        (λ id h1.
          let mine = opened-eq-ok c.name _ id h1 in
          step-cases Ends _ _ s1
            (λ e h. (
              id,
              0,
              2,
              answered id 0,
              refl,
              inr mine,
              inl (omega arith),
              inl (e, refl, labelled-eq-err (about (codes "detach ") c.name) _ e h),
            ))
            (λ x h2.
              step-cases Ends _ _ s2
                (λ e h. (
                  id,
                  0,
                  3,
                  answered id 0,
                  refl,
                  inr mine,
                  inl (omega arith),
                  inl (e, refl, labelled-eq-err (about (codes "count ") c.name) _ e h),
                ))
                (λ rows h3.
                  let counted = labelled-eq-ok (about (codes "count ") c.name) _ rows h3 in
                  step-cases Ends _ _ s3
                    (λ e h. (
                      id,
                      rows,
                      4,
                      answered id rows,
                      refl,
                      inr mine,
                      inr counted,
                      inl (
                        e,
                        refl,
                        labelled-eq-err (about (codes "record the count for ") c.name) _ e h,
                      ),
                    ))
                    (λ y h4.
                      step-cases Ends _ _ (s4 id rows)
                        (λ e h. (
                          id,
                          rows,
                          5,
                          answered id rows,
                          refl,
                          inr mine,
                          inr counted,
                          inl (e, refl, labelled-eq-err (dropping c.name) _ e h),
                        ))
                        (λ z h5.
                          step-cases Ends _ _ (s5 id rows)
                            (λ e h. (
                              id,
                              rows,
                              6,
                              answered id rows,
                              refl,
                              inr mine,
                              inr counted,
                              inl (e, refl, labelled-eq-err (about (codes "stamp ") c.name) _ e h),
                            ))
                            (λ w h6. (
                              id,
                              rows,
                              6,
                              answered id rows,
                              refl,
                              inr mine,
                              inr counted,
                              inr (refl, refl),
                            )))))))
