-- ===== src/Command/Partition.antt =====
-- cmd/partition/main.go: its flags, and its end.
use nine_core.Common.{ℕ, List, [], ◌∷◌, Option, none, some, Bool, false, Bytes, ℤ, pos}
use nine_core.Errors.{GoError}
use nine_core.Store.Session.{Database, Session}
use nine_core.Store.Partition.{PartitionSpan}
use nine_core.Maintainer.{maintain}
use nine_core.Command.{owner_dsn, exit_status}

-- The flags that the command line gives; the flag library parses them.
pub record Flags : Type 0 where
  pub ahead : Option ℤ
  pub behind : Option ℤ
  pub list : Option Bool
  pub retain : Option ℤ

-- A flag, or its default.
abbrev flag {ℓ} : {A : Type ℓ} → Option A → A → A
flag none def = def
flag (some a) def = a

abbrev span_of : Flags → PartitionSpan
span_of f = record { ahead = flag f.ahead (pos 4); behind = flag f.behind (pos 2) }

abbrev complaint : Option GoError → List Bytes
complaint none = []
complaint (some e) = e.text ∷ []

-- The date of a bound, the parser of one, and the order of a range over a map, as for `maintain`.
module _ (date_only : ℕ → Bytes) (parse : Bytes → Bytes → Option ℕ)
    (ranged : List (Bytes × Bytes) → List (Bytes × Bytes)) where
  -- `main`, where `d` is the database at a dsn: what is printed, what goes to the errors, and the
  -- status.
  unfoldable pub main :
      (d : Bytes → Database) (getenv : Bytes → Bytes)
      → Flags
      → ℕ
      → ℕ
      → Session (d (owner_dsn getenv)).State
      → (List Bytes × List Bytes × ℕ) × Session (d (owner_dsn getenv)).State
  main d getenv f now later s =
      let r =
        maintain date_only (d (owner_dsn getenv)) parse ranged (flag f.list false) now later
          (span_of f) (flag f.retain (pos 0)) s in
      ((r.0.0, complaint r.0.1, exit_status r.0.1), r.1)
