-- ===== src/Store/Partition/Horizon.antt =====
-- internal/store/partition.go: the weeks of a horizon, by their names, and those that are missing.
use nine_core.Common.{
  ℕ, zero, suc, ◌+◌, ◌*◌, ◌%◌, ◌<◌, List, [], ◌∷◌, Bool, true, false, ◌||◌, Bool-cases, Bytes,
  bytes_eq, bytes_eq→eq, if◌then◌else◌, ◌≡◌, refl, arith, inl, inr, All,
}
use nine_core.Store.Partition.{PartitionSpan, week, partition_name, first_week, rounds}
use nine_core.Store.Partition.Weeks.{week_start_lem}
use nine_core.Store.Partition.Names.{end_of_time, partition_name_inj}

-- The names of some weeks in a row.
abbrev pub week_names : ℕ → ℕ → List Bytes
week_names zero from = []
week_names (suc left) from = partition_name from ∷ week_names left (from + week)

-- The names that a horizon asks for.
abbrev pub horizon : ℕ → PartitionSpan → List Bytes
horizon now span = week_names (rounds span) (first_week now span)

-- The specification of a run: the names that are not there, in their order, and the tables after.
abbrev pub missing : (Bytes → Bool) → List Bytes → List Bytes
missing there [] = []
missing there (n ∷ ns) = if there n then missing there ns else n ∷ missing there ns

abbrev pub with_all : (Bytes → Bool) → List Bytes → Bytes → Bool
with_all there [] m = there m
with_all there (n ∷ ns) m = bytes_eq m n || with_all there ns m

pub missing-ext :
    (f g : Bytes → Bool) (ns : List Bytes) → All (λ m. f m ≡ g m) ns → missing f ns ≡ missing g ns
missing-ext f g [] h = refl
missing-ext f g (n ∷ ns) (e, h) = rw (e, missing-ext f g ns h)

pub with_all-ext :
    (f g : Bytes → Bool) (ns : List Bytes) (m : Bytes)
    → f m ≡ g m
    → with_all f ns m ≡ with_all g ns m
with_all-ext f g [] m e = e
with_all-ext f g (n ∷ ns) m e = rw (with_all-ext f g ns m e)

-- A name asked for first or last.
pub with_all_first :
    (f : Bytes → Bool) (n : Bytes) (ns : List Bytes) (m : Bytes)
    → with_all (λ k. bytes_eq k n || f k) ns m ≡ (bytes_eq m n || with_all f ns m)
with_all_first f n [] m = refl
with_all_first f n (x ∷ ns) m = rw (with_all_first f n ns m) (ground arith)

with_all-true :
    (f : Bytes → Bool) (ns : List Bytes) (m : Bytes) → f m ≡ true → with_all f ns m ≡ true
with_all-true f [] m e = e
with_all-true f (n ∷ ns) m e = rw (with_all-true f ns m e) (ground arith)

pub with_all_there :
    (f : Bytes → Bool) (n : Bytes) (ns : List Bytes) (m : Bytes)
    → f n ≡ true
    → with_all f ns m ≡ (bytes_eq m n || with_all f ns m)
with_all_there f n ns m h = elim (Bool-cases (bytes_eq m n)) [
  | inr e ↦ rw e refl
  | inl e ↦ let q : f m ≡ true = rw (bytes_eq→eq m n e) h in rw (e, with_all-true f ns m q) refl
]

-- The later weeks have other names.
pub later_names :
    (s t left : ℕ)
    → s % week ≡ 0
    → t % week ≡ 0
    → s < t
    → t + left * week < end_of_time
    → All (λ m. bytes_eq m (partition_name s) ≡ false) (week_names left t)
later_names s t zero hs ht lt h = tt
later_names s t (suc left) hs ht lt h = (
  elim (Bool-cases (bytes_eq (partition_name t) (partition_name s))) [
    | inl e ↦
        let q =
          partition_name_inj t s ht hs (omega arith) (omega arith)
            (bytes_eq→eq (partition_name t) (partition_name s) e) in
        absurd (omega arith)
    | inr e ↦ e
  ],
  later_names s (t + week) left hs (omega arith) (omega arith) (omega arith),
)

pub first_week_lem : (now : ℕ) (span : PartitionSpan) → first_week now span % week ≡ 0
first_week_lem now span = let (le, lt, whole) = week_start_lem now in omega arith
