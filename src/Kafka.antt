-- ===== src/Kafka.antt =====
-- The values of the Kafka client library that the program reads: a record and its headers.
-- The client itself is a parameter of the components that call it.
use nine_core.Common.{ℕ, List, Bytes}

pub record Header : Type 0 where
  pub key : Bytes
  pub value : Bytes

-- `kgo.Record`. A timestamp counts nanoseconds from the zero time of Go, the start of year 1.
pub record Record : Type 0 where
  pub topic : Bytes
  pub partition : ℕ
  pub offset : ℕ
  pub timestamp : ℕ
  pub key : Bytes
  pub value : Bytes
  pub headers : List Header
