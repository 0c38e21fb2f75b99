-- ===== src/Store/Catalogue.antt =====
-- internal/store: what the statements of the partition maintenance do to the catalogue, as
-- PostgreSQL and the table of migrations/00002_events_retention.sql document it. A statement that
-- answers with an error may have been applied or not.
use nine_core.Common.{
  ℕ, List, Option, some, Bool, true, false, Bytes, bytes_eq, ◌≡◌, ◌⊎◌, All, Occurs, map,
}
use nine_core.Errors.{Result, ok, err}
use nine_core.Store.Session.{
  Statement, Answer, connect, set_timeout, try_lock, unlock, read_clock, find_default,
  find_unfinished, list_partitions, find_pending, open_record, detach, count, fill_record,
  drop_table, stamp, lock, list_bounds, exists_table, create_table, Unfinished, Database,
}

-- By name: whether a table exists, whether it is a partition of events, whether a record of its
-- drop is open. By id: the name that a record is about.
pub record View : Type 0 where
  pub exists : Bytes → Bool
  pub inherited : Bytes → Bool
  pub is_open : Bytes → Bool
  pub owner : ℕ → Option Bytes

-- Nothing changes about a name.
abbrev pub Kept : Bytes → View → View → Type 0
Kept n v v' =
    (v'.exists n ≡ v.exists n) × (v'.inherited n ≡ v.inherited n) × (v'.is_open n ≡ v.is_open n)

-- A record stays about its name.
abbrev pub Owned : View → View → Type 0
Owned v v' = (i : ℕ) (n : Bytes) → v.owner i ≡ some n → v'.owner i ≡ some n

abbrev pub Same : View → View → Type 0
Same v v' = Owned v v' × ((n : Bytes) → Kept n v v')

abbrev pub Only : Bytes → View → View → Type 0
Only n v v' = Owned v v' × ((m : Bytes) → bytes_eq m n ≡ false → Kept m v v')

-- What holds of an answer without an error; with one, the name may also be as it was.
abbrev pub Done : {A : Type 0} → Result A → Bytes → View → View → (A → Type 0) → Type 0 → Type 0
Done (ok a) n v v' P Q = P a
Done (err e) n v v' P Q = Kept n v v' ⊎ Q

abbrev IsOpened : Bytes → View → View → Type 0
IsOpened n v v' =
    (v'.exists n ≡ v.exists n) × (v'.inherited n ≡ v.inherited n) × (v'.is_open n ≡ true)

abbrev IsDetached : Bytes → View → View → Type 0
IsDetached n v v' =
    (v'.exists n ≡ v.exists n) × (v'.inherited n ≡ false) × (v'.is_open n ≡ v.is_open n)

abbrev pub IsDropped : Bytes → View → View → Type 0
IsDropped n v v' = (v'.exists n ≡ false) × (v'.inherited n ≡ false) × (v'.is_open n ≡ v.is_open n)

abbrev IsCreated : Bytes → View → View → Type 0
IsCreated n v v' = (v'.exists n ≡ true) × (v'.inherited n ≡ true) × (v'.is_open n ≡ v.is_open n)

-- A stamp closes the records of one id, which is about one name.
abbrev pub Stamped : ℕ → Result (Unit {0}) → View → View → Type 0
Stamped i a v v' =
    (n : Bytes)
    → (v'.exists n ≡ v.exists n)
      × (v'.inherited n ≡ v.inherited n)
      × ((v'.is_open n ≡ v.is_open n) ⊎ ((v.owner i ≡ some n) × (v'.is_open n ≡ false)))

abbrev pub Closed : ℕ → Result (Unit {0}) → View → View → Type 0
Closed i (ok u) v v' = (n : Bytes) → v.owner i ≡ some n → v'.is_open n ≡ false
Closed i (err e) v v' = Unit

-- The search for records that were never stamped finds them all, as they are.
abbrev pub IsFound : View → Unfinished → Type 0
IsFound v u =
    (v.owner u.id ≡ some u.name) × (v.exists u.name ≡ u.on_disk) × (v.inherited u.name ≡ false)

abbrev pub Finds : Result (List Unfinished) → View → Type 0
Finds (err e) v = Unit
Finds (ok us) v =
    All (IsFound v) us
    × ((n : Bytes)
        → v.is_open n ≡ true
        → v.inherited n ≡ false
        → Occurs n (map (λ (u : Unfinished). u.name) us))

abbrev pub Tells : Result Bool → Bytes → View → Type 0
Tells (err e) n v = Unit
Tells (ok b) n v = b ≡ v.exists n

abbrev pub Effect : (q : Statement) → Result (Answer q) → View → View → Type 0
Effect (open_record n f t) a v v' =
    Only n v v' × Done a n v v' (λ i. IsOpened n v v' × (v'.owner i ≡ some n)) (IsOpened n v v')
Effect (detach n p) a v v' =
    Only n v v' × Done a n v v' (λ u. IsDetached n v v') (IsDetached n v v')
Effect (drop_table n) a v v' =
    Only n v v' × Done a n v v' (λ u. IsDropped n v v') (IsDropped n v v')
Effect (create_table n f t) a v v' =
    Only n v v' × Done a n v v' (λ u. IsCreated n v v') (IsCreated n v v')
Effect (stamp i t) a v v' = Owned v v' × Stamped i a v v' × Closed i a v v'
Effect find_unfinished a v v' = Same v v' × Finds a v
Effect (exists_table n) a v v' = Same v v' × Tells a n v
Effect (count n) a v v' = Same v v'
Effect (fill_record i n t) a v v' = Same v v'
Effect connect a v v' = Same v v'
Effect set_timeout a v v' = Same v v'
Effect try_lock a v v' = Same v v'
Effect unlock a v v' = Same v v'
Effect read_clock a v v' = Same v v'
Effect find_default a v v' = Same v v'
Effect list_partitions a v v' = Same v v'
Effect find_pending a v v' = Same v v'
Effect lock a v v' = Same v v'
Effect list_bounds a v v' = Same v v'

-- A database whose statements have these effects on a view of its state.
pub record Catalogue (d : Database) : Type 0 where
  pub view : d.State → View
  pub effect :
      (q : Statement) (s : d.State) → Effect q (d.answer q s).0 (view s) (view (d.answer q s).1)
