-- ===== src/Store/Retention/Run/Resumes.antt =====
-- internal/store/retention.go: what the search for unfinished drops leaves of the catalogue.
use nine_core.Common.{
  ℕ, List, [], ◌∷◌, map, some, true, false, Bytes, bytes_eq→eq, ◌≡◌, sym, subst, ◌∙◌, ◌⊎◌, inl, inr,
  All, Occurs,
}
use nine_core.Errors.{Result, ok, err}
use nine_core.Store.Session.{drop_table, Unfinished}
use nine_core.Store.Catalogue.{
  View, Kept, Owned, Same, Only, IsDropped, Stamped, Closed, Effect, IsFound, Finds,
}
use nine_core.Store.Retention.Run.Tracked.{IsTracked, IsGone, about, both-Kept, Kept-IsTracked}

-- Records keep their names, and neither a table nor an open record comes to be.
abbrev pub Resumes : View → View → Type 0
Resumes v v' =
    Owned v v'
    × ((n : Bytes) → v.exists n ≡ false → v'.exists n ≡ false)
    × ((n : Bytes) → v.is_open n ≡ false → v'.is_open n ≡ false)

pub Resumes-trans : (a b c : View) → Resumes a b → Resumes b c → Resumes a c
Resumes-trans a b c (o, e, i) (o', e', i') =
    (λ k n h. o' k n (o k n h), λ n h. e' n (e n h), λ n h. i' n (i n h))

pub Same-Resumes : (v v' : View) → Same v v' → Resumes v v'
Same-Resumes v v' (o, k) = (o, λ n h. (k n).0 ∙ h, λ n h. (k n).2 ∙ h)

-- The table is gone and its record closed.
abbrev pub IsCleared : Bytes → View → Type 0
IsCleared n v = (v.exists n ≡ false) × (v.is_open n ≡ false)

-- An unfinished drop as the search found it: what is not on disk does not exist.
abbrev pub IsReady : View → Unfinished → Type 0
IsReady v u = (v.owner u.id ≡ some u.name) × (u.on_disk ≡ false → v.exists u.name ≡ false)

pub Resumes-IsReady : (v v' : View) (u : Unfinished) → Resumes v v' → IsReady v u → IsReady v' u
Resumes-IsReady v v' u (o, e, i) (w, gone) = (o u.id u.name w, λ x. e u.name (gone x))

pub IsFound-IsReady : (v : View) (u : Unfinished) → IsFound v u → IsReady v u
IsFound-IsReady v u (w, e, i) = (w, λ x. e ∙ x)

module _ (q n : Bytes) (v v' : View) where
  left_or_gone :
      Only q v v' → Kept q v v' ⊎ IsDropped q v v' → Resumes v v' × (IsTracked n v → IsTracked n v')
  left_or_gone only (inl k) = (
    Same-Resumes v v' (only.0, λ m. both-Kept q m v v' only k),
    Kept-IsTracked n v v' (both-Kept q n v v' only k),
  )
  left_or_gone only (inr w) = (
    (
      only.0,
      λ m h. about q m v v' (λ x y. x.exists y ≡ false) only (w.0) (λ k. k.0 ∙ h),
      λ m h. about q m v v' (λ x y. x.is_open y ≡ v.is_open y) only (w.2) (λ k. k.2) ∙ h,
    ),
    λ t.
        about q n v v' (λ x y. IsTracked y x) only (λ e. cc (w.0)) (λ k. Kept-IsTracked n v v' k t),
  )

  pub drop-Resumes :
      (a : Result (Unit {0}))
      → Effect (drop_table q) a v v'
      → Resumes v v' × (IsTracked n v → IsTracked n v')
  drop-Resumes (ok u) (only, w) = left_or_gone only (inr w)
  drop-Resumes (err e) (only, w) = left_or_gone only w

  pub dropped-exists :
      (a : Result (Unit {0})) (u : Unit {0})
      → a ≡ ok u
      → Effect (drop_table q) a v v'
      → v'.exists q ≡ false
  dropped-exists (ok x) u e (only, w) = w.0
  dropped-exists (err x) u e (only, w) = cc

  -- A stamp of a record about a table that is gone.
  pub gone : (id : ℕ) → v.owner id ≡ some q → v.exists q ≡ false → IsTracked n v → IsGone id q n v
  gone id w e t = (w, λ b. subst (λ m. v.exists m ≡ false) (sym (bytes_eq→eq n q b)) e, t)

pub found_lem :
    (v : View) (a : Result (List Unfinished)) (us : List Unfinished)
    → a ≡ ok us
    → Finds a v
    → All (IsFound v) us
      × ((n : Bytes)
          → v.is_open n ≡ true
          → v.inherited n ≡ false
          → Occurs n (map (λ (u : Unfinished). u.name) us))
found_lem v (ok us') us e f = let same : us' ≡ us = cc in rw same at f
found_lem v (err x) us e f = cc

pub IsCleared-name :
    (us : List Unfinished) (m : Bytes) (v : View)
    → All (λ (u : Unfinished). IsCleared u.name v) us
    → Occurs m (map (λ (u : Unfinished). u.name) us)
    → IsCleared m v
IsCleared-name [] m v h o = absurd o
IsCleared-name (u ∷ us) m v (k, h) (inl e) = subst (λ x. IsCleared x v) (sym e) k
IsCleared-name (u ∷ us) m v (k, h) (inr o) = IsCleared-name us m v h o

pub stamp-Resumes :
    (v v' : View) (id : ℕ) (a : Result (Unit {0})) → Owned v v' → Stamped id a v v' → Resumes v v'
stamp-Resumes v v' id a own st = (
  own,
  λ m h. (st m).0 ∙ h,
  λ m h. elim ((st m).2) [ inl same ↦ same ∙ h | inr (mine, closed) ↦ closed ],
)

pub stamped-Closed :
    (v v' : View) (id : ℕ) (a : Result (Unit {0})) (u : Unit {0}) (q : Bytes)
    → a ≡ ok u
    → Closed id a v v'
    → v.owner id ≡ some q
    → v'.is_open q ≡ false
stamped-Closed v v' id (ok x) u q e cl w = cl q w
stamped-Closed v v' id (err x) u q e cl w = cc
