-- ===== src/Maintainer/Tests.antt =====
-- The maintainer on the database in memory.
use nine_core.Common.{
  ℕ, ◌+◌, ◌*◌, List, [], ◌∷◌, Option, none, false, Bytes, codes, bytes_eq, ◌≡◌, refl, pos, ◌⊎◌,
  natural, ◌==◌, arith,
}
use nine_core.Store.Partition.{week, collect}
use nine_core.Store.Partition.Tests.{memory, catalogue, now, start, span, far, ensure_runs}
use nine_core.Store.Retention.Run.Boundary.{IsIntact}
use nine_core.Maintainer.{maintain}
use nine_core.Maintainer.Order.{HasWeek, maintain-IsIntact}

abbrev no_date : ℕ → Bytes
no_date t = []

abbrev no_bound : Bytes → Bytes → Option ℕ
no_bound l b = none

abbrev in_order : List (Bytes × Bytes) → List (Bytes × Bytes)
in_order m = m

abbrev lines : List Bytes
lines =
    codes "created events_w2028_06"
    ∷ codes "created events_w2028_07"
    ∷ codes "created events_w2028_09"
    ∷ []

prints_created :
    (maintain no_date memory no_bound in_order false now now span (pos 0) start).0 ≡ (lines, none)
unfolding maintain
prints_created = rw (ensure_runs) refl

a_later_row_replaces :
    collect memory
      ((codes "a", codes "1") ∷ (codes "b", codes "2") ∷ (codes "a", codes "3") ∷ [])
      []
    ≡ (codes "a", codes "3") ∷ (codes "b", codes "2") ∷ []
unfolding collect bytes_eq
a_later_row_replaces = refl

maintain-IsIntact_example :
    IsIntact no_bound
      (maintain no_date memory no_bound in_order false now now span (pos (4 * week)) start).1.trace
    ⊎ ((false ≡ false)
        × ((natural (pos (4 * week)) == 0) ≡ false)
        × HasWeek memory no_bound catalogue no_date in_order now now span far
            (now + 2 * week)
            start)
maintain-IsIntact_example =
    maintain-IsIntact memory no_bound catalogue no_date in_order now now span far false
      (pos (4 * week)) start (now + 2 * week) (omega arith) (omega arith) tt
