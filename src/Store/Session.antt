-- ===== src/Store/Session.antt =====
-- internal/store: the statements of the partition maintenance (partition.go, retention.go), as
-- questions to a database of which nothing is assumed.
use nine_core.Common.{
  ℕ, List, [], ◌∷◌, ◌++◌, Option, Bool, Bytes, codes, bytes_eq, if◌then◌else◌, some, none, ◌≡◌,
  refl, inl, inr,
}
use nine_core.Errors.{
  GoError, PgError, Result, ok, err, wrap, plain, of_sentinel, errors_is, find_pg, no_rows,
  Result-cases, default_partition, labelled,
}

pub data Statement : Type 0 where
  connect set_timeout try_lock unlock read_clock : Statement
  find_default find_unfinished list_partitions find_pending : Statement
  open_record : Bytes → ℕ → ℕ → Statement
  detach : Bytes → Bool → Statement
  count : Bytes → Statement
  fill_record : ℕ → ℕ → ℕ → Statement
  drop_table : Bytes → Statement
  stamp : ℕ → ℕ → Statement
  lock list_bounds : Statement
  exists_table : Bytes → Statement
  create_table : Bytes → ℕ → ℕ → Statement

-- A partition of the table: its name, its bounds as the server renders them, and whether its
-- detach is pending.
pub record Row : Type 0 where
  pub name : Bytes
  pub bounds : Bytes
  pub pending : Bool

-- A record of a drop that was never stamped, for a table that is no partition.
pub record Unfinished : Type 0 where
  pub id : ℕ
  pub name : Bytes
  pub from : ℕ
  pub to : ℕ
  pub rows : Option ℕ
  pub counted : Bool
  pub on_disk : Bool

abbrev pub Answer : Statement → Type 0
Answer try_lock = Bool
Answer read_clock = ℕ
Answer find_default = Bytes
Answer find_pending = Bytes
Answer find_unfinished = List Unfinished
Answer list_partitions = List Row
Answer (open_record n f t) = ℕ
Answer (count n) = ℕ
Answer connect = Unit {0}
Answer set_timeout = Unit {0}
Answer unlock = Unit {0}
Answer (detach n p) = Unit {0}
Answer (fill_record i n t) = Unit {0}
Answer (drop_table n) = Unit {0}
Answer (stamp i t) = Unit {0}
Answer lock = Unit {0}
Answer list_bounds = List (Bytes × Bytes)
Answer (exists_table n) = Bool
Answer (create_table n f t) = Unit {0}

pub record Database : Type 1 where
  pub State : Type 0
  pub answer : (q : Statement) → State → Result (Answer q) × State

-- A statement with its answer.
pub data Entry : Type 0 where
  asked : (q : Statement) → Result (Answer q) → Entry

abbrev pub statement : Entry → Statement
statement (asked q a) = q

-- The database beside the statements so far, the latest first.
pub record Session (S : Type 0) : Type 0 where
  pub trace : List Entry
  pub state : S

-- The latest statement was answered with an error.
abbrev pub IsRefused : List Entry → Type 0
IsRefused [] = ⊥
IsRefused (asked q a ∷ tr) = (e : GoError) × (a ≡ err e)

abbrev no_table : GoError
no_table = plain (codes "partitions: the events table does not exist, run cmd/migrate first")

abbrev is_no_table : Option PgError → Bool
is_no_table none = Bool.false
is_no_table (some p) = bytes_eq p.code (codes "42P01")

-- What the search for a default partition means.
unfoldable pub refusal : Result Bytes → Result (Unit {0})
refusal (ok name) = err (
    wrap []
      (of_sentinel default_partition
        (codes "events carries a default partition, which breaks retention and hides the horizon"))
      (codes ": " ++ name))
refusal (err e) =
    if errors_is e no_rows
    then ok tt
    else if is_no_table (find_pg e.chain)
    then err no_table
    else err (wrap (codes "partitions: ") e [])

abbrev continue : {S A B : Type 0} → Result A → (A → S → Result B × S) → S → Result B × S
continue (ok a) f s = f a s
continue (err e) f s = (err e, s)

-- Steps on a state, up to the first error.
infixl 5 ◌>>=◌
unfoldable pub ◌>>=◌ :
    {S A B : Type 0} → (S → Result A × S) → (A → S → Result B × S) → S → Result B × S
◌>>=◌ m f s = continue (m s).0 f (m s).1

-- What holds of a failed step, and of what follows a step that did not fail, holds of the whole.
pub step-cases {ℓ} :
    {S A B : Type 0} (P : Result B × S → Type ℓ) (m : S → Result A × S) (f : A → S → Result B × S)
    (s : S)
    → ((e : GoError) → (m s).0 ≡ err e → P (err e, (m s).1))
    → ((a : A) → (m s).0 ≡ ok a → P (f a (m s).1))
    → P ((m >>= f) s)
unfolding ◌>>=◌
step-cases P m f s failed went_on = elim (Result-cases (m s).0) [
  | inl (a, h) ↦ rw h (went_on a h)
  | inr (e, h) ↦ rw h (failed e h)
]

-- Inversion of steps that did not fail.
pub step-eq-ok :
    {S A B : Type 0} (m : S → Result A × S) (f : A → S → Result B × S) (s : S) (b : B)
    → ((m >>= f) s).0 ≡ ok b
    → (a : A) × ((m s).0 ≡ ok a) × ((f a (m s).1).0 ≡ ok b) × ((m >>= f) s ≡ f a (m s).1)
unfolding ◌>>=◌
step-eq-ok m f s b h = elim (Result-cases (m s).0) [
  | inl (a, e) ↦ (a, e, rw e at h, rw e refl)
  | inr (x, e) ↦ cc (rw e at h)
]

module _ (d : Database) where
  abbrev pub D : Type 0 → Type 0
  D A = Session d.State → Result A × Session d.State

  abbrev pub give : {A : Type 0} → Result A → D A
  give r s = (r, s)

  -- A statement, and its answer.
  abbrev pub ask : (q : Statement) → D (Answer q)
  ask q s =
      let a = d.answer q s.state in (a.0, record { trace = asked q a.0 ∷ s.trace; state = a.1 })

  -- The same, with a label on its error.
  abbrev pub query : Bytes → (q : Statement) → D (Answer q)
  query label q s = (labelled label (ask q s).0, (ask q s).1)

  abbrev pub refuse_default : D (Unit {0})
  refuse_default s = (refusal (ask find_default s).0, (ask find_default s).1)
