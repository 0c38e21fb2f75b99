-- ===== src/Command/Migrate.antt =====
-- cmd/migrate/main.go, and `Migrate` of internal/store/store.go.
use nine_core.Common.{ℕ, List, [], ◌∷◌, Option, none, some, Bytes, codes}
use nine_core.Errors.{GoError, Result, ok, err, wrap}
use nine_core.Command.{owner_dsn, exit_status}

-- What the database driver and the migration library answer, on one state.
pub record Migrations : Type 1 where
  pub State : Type 0
  pub connect : Bytes → State → Result (Unit {0}) × State
  pub new_provider : State → Result (Unit {0}) × State
  pub up : State → Result (Unit {0}) × State
  pub close : State → State

module _ (g : Migrations) where
  -- A call that ends the migration with a label on its error.
  abbrev try :
      Result (Unit {0}) × g.State → (g.State → Option GoError × g.State) → Option GoError × g.State
  try (ok u, s) k = k s
  try (err e, s) k = (some (wrap (codes "migrate: ") e []), s)

  -- `Migrate`: a database that was opened is closed on every path.
  unfoldable pub migrate : Bytes → g.State → Option GoError × g.State
  migrate dsn s = try (g.connect dsn s) λ s1.
      let r = try (g.new_provider s1) (λ s2. try (g.up s2) (λ s3. (none, s3))) in (r.0, g.close r.1)

  -- What is printed, and to the errors of the process.
  abbrev said : Option GoError → List Bytes × List Bytes
  said none = (codes "nine_core is at the latest migration" ∷ [], [])
  said (some e) = ([], e.text ∷ [])

  -- `main`: the lines, and the status of the process.
  unfoldable pub main : (Bytes → Bytes) → g.State → ((List Bytes × List Bytes) × ℕ) × g.State
  unfolding migrate owner_dsn
  main getenv s = let r = migrate (owner_dsn getenv) s in ((said r.0, exit_status r.0), r.1)
