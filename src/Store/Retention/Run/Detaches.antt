-- ===== src/Store/Retention/Run/Detaches.antt =====
-- internal/store/retention.go: the names that the loops of a run detach.
use nine_core.Common.{ℕ, List, [], ◌∷◌, Option, none, some, Bool, true, false, Bytes, All, ◌++◌}
use nine_core.Errors.{Result, ok, err}
use nine_core.Store.Session.{
  Statement, Answer, Entry, asked, statement, detach, Unfinished, Database, Session, D, ◌>>=◌,
  step-cases,
}
use nine_core.Store.Retention.{Candidate, Dropped}
use nine_core.Store.Retention.Run.{
  drop_one, resume_one, counted_rows, close, resume_as, drop_all, resume_all, step_on, R,
}

-- A statement that detaches a name with `Q`, or detaches nothing.
abbrev pub Detaches : (Bytes → Type 0) → Statement → Type 0
Detaches Q (detach n p) = Q n
Detaches Q _ = Unit

-- Every detach among some statements is of a name with `Q`.
abbrev pub AllDetaches : (Bytes → Type 0) → List Entry → Type 0
AllDetaches Q = All (λ x. Detaches Q (statement x))

module _ (Q : Bytes → Type 0) (I : List Entry → Type 0)
    (grow : (q : Statement) (a : Result (Answer q)) (tr : List Entry)
      → Detaches Q q
      → I tr
      → I (asked q a ∷ tr))
    (d : Database) where
  pub step-keeps :
      {A B : Type 0} (m : D d A) (f : A → D d B) (s : Session d.State)
      → I (m s).1.trace
      → ((a : A) → I (m s).1.trace → I (f a (m s).1).1.trace)
      → I ((m >>= f) s).1.trace
  step-keeps m f s i k = step-cases (λ r. I r.1.trace) m f s (λ e h. i) (λ a h. k a i)

  drop_one-keeps :
      (c : Candidate) (now : ℕ) (s : Session d.State)
      → Q c.name
      → I s.trace
      → I (drop_one d c now s).1.trace
  unfolding drop_one
  drop_one-keeps c now s q i = step-keeps _ _ _ (grow _ _ _ tt i) (λ id i1.
      step-keeps _ _ _ (grow _ _ _ q i1) (λ x i2. step-keeps _ _ _ (grow _ _ _ tt i2) (λ rows i3.
        step-keeps _ _ _ (grow _ _ _ tt i3) (λ y i4.
          step-keeps _ _ _ (grow _ _ _ tt i4)
            (λ z i5. step-keeps _ _ _ (grow _ _ _ tt i5) (λ w i6. i6))))))

  step_on-keeps :
      (out : List Dropped) (r : Result Dropped) (k : List Dropped → R d) (s : Session d.State)
      → I s.trace
      → ((x : List Dropped) → I (k x s).1.trace)
      → I (step_on d out r k s).1.trace
  step_on-keeps out (ok x) k s i h = h (out ++ x ∷ [])
  step_on-keeps out (err e) k s i h = i

  pub drop_all-keeps :
      (cs : List Candidate) (now : ℕ) (out : List Dropped) (s : Session d.State)
      → All (λ c. Q c.name) cs
      → I s.trace
      → I (drop_all d cs now out s).1.trace
  unfolding drop_all
  drop_all-keeps [] now out s h i = i
  drop_all-keeps (c ∷ cs) now out s (q, h) i =
      let i1 = drop_one-keeps c now s q i in
      step_on-keeps out (drop_one d c now s).0 (drop_all d cs now) (drop_one d c now s).1 i1
        (λ x. drop_all-keeps cs now x (drop_one d c now s).1 h i1)

  counted_rows-keeps :
      (u : Unfinished) (now : ℕ) (b : Bool) (n : Option ℕ) (s : Session d.State)
      → I s.trace
      → I (counted_rows d u now b n s).1.trace
  counted_rows-keeps u now true (some n) s i = i
  counted_rows-keeps u now true none s i =
      step-keeps _ _ _ (grow _ _ _ tt i) (λ n i1. step-keeps _ _ _ (grow _ _ _ tt i1) (λ x i2. i2))
  counted_rows-keeps u now false n s i =
      step-keeps _ _ _ (grow _ _ _ tt i) (λ n i1. step-keeps _ _ _ (grow _ _ _ tt i1) (λ x i2. i2))

  close-keeps :
      (u : Unfinished) (now n : ℕ) (b : Bool) (s : Session d.State)
      → I s.trace
      → I (close d u now n b s).1.trace
  close-keeps u now n b s i = step-keeps _ _ _ (grow _ _ _ tt i) (λ x i1. i1)

  resume_as-keeps :
      (u : Unfinished) (now : ℕ) (b : Bool) (n : Option ℕ) (s : Session d.State)
      → I s.trace
      → I (resume_as d u now b n s).1.trace
  resume_as-keeps u now true n s i =
      step-keeps _ _ _ (counted_rows-keeps u now u.counted n s i)
        (λ k i1. step-keeps _ _ _ (grow _ _ _ tt i1) (λ x i2. close-keeps u now k true _ i2))
  resume_as-keeps u now false (some n) s i = close-keeps u now n true s i
  resume_as-keeps u now false none s i = close-keeps u now 0 false s i

  pub resume_all-keeps :
      (us : List Unfinished) (now : ℕ) (out : List Dropped) (s : Session d.State)
      → I s.trace
      → I (resume_all d us now out s).1.trace
  unfolding resume_all resume_one
  resume_all-keeps [] now out s i = i
  resume_all-keeps (u ∷ us) now out s i =
      let i1 = resume_as-keeps u now u.on_disk u.rows s i in
      step_on-keeps out (resume_one d u now s).0 (resume_all d us now) (resume_one d u now s).1 i1
        (λ x. resume_all-keeps us now x (resume_one d u now s).1 i1)
