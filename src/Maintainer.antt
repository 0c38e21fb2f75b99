-- ===== src/Maintainer.antt =====
-- cmd/partition/main.go: the horizon first, and what is past after it.
pub mod Order
mod Tests
use nine_core.Common.{
  ℕ, List, [], ◌∷◌, ◌++◌, Option, none, some, Bool, true, false, Bytes, codes, ◌==◌, if◌then◌else◌,
  ℤ, natural, map, length, pos,
}
use nine_core.Errors.{GoError, Result, ok, err}
use nine_core.Strconv.{decimal}
use nine_core.Store.Session.{Database, Session}
use nine_core.Store.Partition.{PartitionSpan, Created, listing, ensure_partitions}
use nine_core.Store.Retention.{Dropped}
use nine_core.Store.Retention.Run.{Report, retain}

-- The lines that were printed, and the error.
abbrev Printed : Type 0
Printed = List Bytes × Option GoError

abbrev pub listed : Bytes × Bytes → Bytes
listed (name, bound) = name ++ (codes "  " ++ bound)

abbrev how_many : List (Bytes × Bytes) → Bytes
how_many parts = decimal (length parts) ++ codes " partitions"

abbrev created_lines : List Bytes → List Bytes
created_lines [] = codes "the horizon is already there, nothing created" ∷ []
created_lines (name ∷ names) = map (λ n. codes "created " ++ n) (name ∷ names)

abbrev rows_of : Dropped → Bytes
rows_of x =
    if x.counted then decimal x.rows ++ codes " rows" else codes "an uncounted number of rows"

-- The date of a bound is the standard library's text.
module _ (date_only : ℕ → Bytes) where
  abbrev dropped_line : Dropped → Bytes
  dropped_line x =
      codes "dropped "
      ++ (x.name
          ++ (codes " covering "
              ++ (date_only x.range_start
                  ++ (codes " to " ++ (date_only x.range_end ++ (codes ", " ++ rows_of x))))))

  abbrev dropped_lines : Report → List Bytes
  dropped_lines (xs, some e) = map dropped_line xs
  dropped_lines ([], none) = codes "nothing is wholly past the boundary, nothing dropped" ∷ []
  dropped_lines (x ∷ xs, none) = map dropped_line (x ∷ xs)

  -- The database, the parser of a bound, and the order in which a range over a map comes.
  module _ (d : Database) (parse : Bytes → Bytes → Option ℕ)
      (ranged : List (Bytes × Bytes) → List (Bytes × Bytes)) where
    abbrev O : Type 0
    O = Session d.State → Printed × Session d.State

    abbrev pub list_only : O
    list_only s = elim (listing d s).0 [
      | err e ↦ (([], some e), (listing d s).1)
      | ok parts ↦ ((map listed (ranged parts) ++ how_many parts ∷ [], none), (listing d s).1)
    ]

    -- The second half, behind a horizon that was extended.
    abbrev then_retain : List Bytes → ℕ → PartitionSpan → ℤ → O
    then_retain lines later span keep s =
        let r = retain d parse later keep span s in ((lines ++ dropped_lines r.0, r.0.1), r.1)

    abbrev pub behind : Created → ℕ → PartitionSpan → ℤ → O
    behind (created, some e) later span keep s = (([], some e), s)
    behind (created, none) later span keep s =
        if natural keep == 0
        then ((created_lines created, none), s)
        else then_retain (created_lines created) later span keep s

    -- `run`, where the clock says `now` for the horizon and `later` for the retention.
    unfoldable pub maintain : Bool → ℕ → ℕ → PartitionSpan → ℤ → O
    maintain true now later span keep s = list_only s
    maintain false now later span keep s =
        behind (ensure_partitions d now span s).0 later span keep (ensure_partitions d now span s).1
