-- ===== src/Store/Retention/Run/Cases.antt =====
-- internal/store/retention.go: the branches of a run.
use nine_core.Common.{List, [], ◌∷◌, ◌++◌, none, some, Bool, true, false, if◌then◌else◌, ◌≡◌, refl}
use nine_core.Errors.{GoError, Result, ok, err}
use nine_core.Store.Session.{Database, Session}
use nine_core.Store.Retention.{Dropped}
use nine_core.Store.Retention.Run.{Report, R, fail, attempt, step_on}

module _ (d : Database) where
  pub attempt-cases :
      {A : Type 0} (P : Report × Session d.State → Type 0) (r : Result A) (k : A → R d)
      (s : Session d.State)
      → ((e : GoError) → P (fail d e s))
      → ((a : A) → r ≡ ok a → P (k a s))
      → P (attempt d r k s)
  unfolding attempt
  attempt-cases P (ok a) k s f g = g a refl
  attempt-cases P (err e) k s f g = f e

  pub if-cases :
      (P : Report × Session d.State → Type 0) (b : Bool) (x y : R d) (s : Session d.State)
      → (b ≡ true → P (x s))
      → (b ≡ false → P (y s))
      → P ((if b then x else y) s)
  if-cases P true x y s f g = f refl
  if-cases P false x y s f g = g refl

  pub attempt-none :
      {A : Type 0} (r : Result A) (k : A → R d) (s : Session d.State) (out : List Dropped)
      → (attempt d r k s).0 ≡ (out, none)
      → (a : A) × (r ≡ ok a) × ((k a s).0 ≡ (out, none))
  unfolding attempt
  attempt-none (ok a) k s out h = (a, refl, h)
  attempt-none (err e) k s out h = cc

  pub step_on-cases :
      (P : Report × Session d.State → Type 0) (out : List Dropped) (r : Result Dropped)
      (k : List Dropped → R d) (s : Session d.State)
      → ((e : GoError) → P ((out, some e), s))
      → ((x : Dropped) → r ≡ ok x → P (k (out ++ x ∷ []) s))
      → P (step_on d out r k s)
  step_on-cases P out (ok x) k s f g = g x refl
  step_on-cases P out (err e) k s f g = f e
