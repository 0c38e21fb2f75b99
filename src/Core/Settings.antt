-- ===== src/Core/Settings.antt =====
-- cmd/core/main.go: the settings that the environment gives.
use nine_core.Common.{
  ℕ, List, [], ◌∷◌, none, false, Bool-cases, Bytes, codes, bytes_eq, ◌≡◌, refl, subst, inl, inr,
  ◌==◌, ℤ, pos, negsuc,
}
use nine_core.Errors.{ok, Result-cases}
use nine_core.Consumer.Setup.{Config, new}
use nine_core.Core.{Process, split, env, not_negative, delay, settings, configured}

split-is_some : (sep : ℕ) (s : Bytes) → (x : Bytes) × (xs : List Bytes) × (split sep s ≡ x ∷ xs)
unfolding split
split-is_some sep [] = ([], [], refl)
split-is_some sep (c ∷ s) = elim (Bool-cases (c == sep)) [
  | inl e ↦ ([], split sep s, rw e refl)
  | inr e ↦ let (x, xs, q) = split-is_some sep s in (c ∷ x, xs, rw (e, q) refl)
]

module _ (os : Process) where
  -- A setting with a default is never empty.
  env-is_some : (k def : Bytes) → bytes_eq def [] ≡ false → bytes_eq (env os k def) [] ≡ false
  unfolding env
  env-is_some k def d = elim (Bool-cases (bytes_eq (os.getenv k) [])) [
    | inl e ↦ rw e d
    | inr e ↦ rw e e
  ]

  not_negative-pos : (d x : ℤ) → not_negative os d ≡ ok x → (n : ℕ) × (x ≡ pos n)
  not_negative-pos (pos n) x h = (n, cc)
  not_negative-pos (negsuc n) x h = cc

  delay-pos : (raw : Bytes) (x : ℤ) → delay os raw ≡ ok x → (n : ℕ) × (x ≡ pos n)
  unfolding delay
  delay-pos raw x h = elim (Bool-cases (bytes_eq raw [])) [
    | inl e ↦ let h' : ok (pos 0) ≡ ok x = rw e at h in (0, cc)
    | inr e ↦ elim (Result-cases (os.parse_duration raw)) [
      | inl (d, q) ↦ not_negative-pos d x (rw (e, q) at h)
      | inr (y, q) ↦ cc (rw (e, q) at h)
    ]
  ]

  settings_accepted : {S : Type 0} (d : ℤ) (s : S) → (new (settings os d) s).0 ≡ none
  unfolding new
  settings_accepted d s =
      let brokers = env os (codes "NINE_KAFKA_BROKERS") (codes "localhost:19092") in
      let (x, xs, q) = split-is_some b',' brokers in
      rw (q, env-is_some (codes "NINE_CONSUMER_GROUP") (codes "core") refl) refl

  -- Whatever the environment holds: a configuration that is read from it passes the check of the
  -- consumer's New, and its delay is not negative.
  pub configured_accepted :
      {S : Type 0} (cfg : Config) (s : S)
      → configured os ≡ ok cfg
      → ((new cfg s).0 ≡ none) × ((n : ℕ) × (cfg.delay ≡ pos n))
  unfolding configured
  configured_accepted cfg s h =
      elim (Result-cases (delay os (os.getenv (codes "NINE_CONSUMER_DELAY")))) [
        | inl (d, q) ↦
            let same : ok (settings os d) ≡ ok cfg = rw q at h in
            let this : settings os d ≡ cfg = cc in
            subst (λ c. ((new c s).0 ≡ none) × ((n : ℕ) × (c.delay ≡ pos n))) this
              (settings_accepted d s, delay-pos _ d q)
        | inr (e, q) ↦ cc (rw q at h)
      ]
