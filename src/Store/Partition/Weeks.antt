-- ===== src/Store/Partition/Weeks.antt =====
-- internal/store/partition.go: where the week of a moment starts.
use nine_core.Common.{ℕ, ◌+◌, ◌%◌, ◌<◌, ◌≤◌, ◌≡◌, arith}
use nine_core.Store.Partition.{week, week_start}

-- A week holds its moment, and starts on a Monday.
pub week_start_lem :
    (t : ℕ) → (week_start t ≤ t) × (t < week_start t + week) × (week_start t % week ≡ 0)
unfolding week_start
week_start_lem t = (omega arith, omega arith, omega arith)
