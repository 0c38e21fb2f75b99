-- ===== src/Pipeline/Tests.antt =====
-- The names of outcomes at concrete values.
use nine_core.Common.{negsuc, some, ◌≡◌, arith}
use nine_core.Strconv
use nine_core.Pipeline.{itoa}
use nine_core.Pipeline.Name.{itoa_total}

itoa_total_example : itoa (negsuc 41) ≡ some (Strconv.itoa (negsuc 41))
itoa_total_example = itoa_total (negsuc 41) (omega arith)
