-- ===== src/Command/Tests.antt =====
-- A migration whose second call fails.
use nine_core.Common.{ℕ, [], ◌∷◌, codes, bytes_eq, ◌≡◌, refl}
use nine_core.Errors.{ok, err, plain}
use nine_core.Command.{owner_dsn}
use nine_core.Command.Migrate.{Migrations, migrate, main}

-- A state counts the connections that are open.
abbrev broken : Migrations
broken = record {
  State = ℕ;
  connect = λ dsn s. (ok tt, 1);
  new_provider = λ s. (ok tt, s);
  up = λ s. (err (plain (codes "dirty")), s);
  close = λ s. 0;
}

fails_closed : main broken (λ k. []) 0 ≡ ((([], codes "migrate: dirty" ∷ []), 1), 0)
unfolding main migrate owner_dsn bytes_eq
fails_closed = refl
