-- ===== src/Consumer/Deadline.antt =====
-- internal/consumer/consumer.go: how long a poll may wait.
use nine_core.Common.{
  ℕ, ◌+◌, ◌-◌, ◌≤◌, ◌<◌, List, [], ◌∷◌, Option, none, some, Bool-cases, ltb, ◌==◌, ==_iff, ◌||◌,
  if◌then◌else◌, ◌≡◌, refl, ap, ◌∙◌, ◌⊎◌, inl, inr, arith, Occurs, All,
}
use nine_core.Consumer.Setup.{Config, World, Machine}
use nine_core.Consumer.Run.{soonest, poll_deadline, min_wait}

-- Every deadline lies after the zero time of Go.
abbrev pub AreLate : List (ℕ × ℕ) → Type 0
AreLate = All (λ e. 0 < e.1)

-- The soonest of some entries, or of `z` with them where `z` is not the zero time.
soonest-le :
    (z : ℕ) (w : List (ℕ × ℕ))
    → AreLate w
    → (0 < z → soonest z w ≤ z) × All (λ e. soonest z w ≤ e.1) w
unfolding soonest
soonest-le z [] h = (λ k. omega arith, tt)
soonest-le z ((p, at) ∷ w) (l, h) =
    let (below, rest) = soonest-le (if z == 0 || ltb at z then at else z) w h in
    (ground (arith, below), (ground (arith, below), rest))

soonest-Occurs :
    (z : ℕ) (w : List (ℕ × ℕ)) → (soonest z w ≡ z) ⊎ ((p : ℕ) × Occurs (p, soonest z w) w)
unfolding soonest
soonest-Occurs z [] = inl refl
soonest-Occurs z ((p, at) ∷ w) =
    let c = z == 0 || ltb at z in
    elim (soonest-Occurs (if c then at else z) w) [
      | inr (q, o) ↦ inr (q, inr o)
      | inl e ↦ elim (Bool-cases c) [
        | inl t ↦ inr (p, inl (ap (λ x. (p, x)) (e ∙ ap (λ b. if b then at else z) t)))
        | inr t ↦ inl (e ∙ ap (λ b. if b then at else z) t)
      ]
    ]

soonest-lt : (z : ℕ) (w : List (ℕ × ℕ)) → AreLate w → 0 < z → 0 < soonest z w
unfolding soonest
soonest-lt z [] h l = l
soonest-lt z ((p, at) ∷ w) (k, h) l =
    soonest-lt (if z == 0 || ltb at z then at else z) w h (ground arith)

-- Without a deadline nothing waits.
soonest-eq-0 : (w : List (ℕ × ℕ)) → AreLate w → soonest 0 w ≡ 0 → w ≡ []
unfolding soonest
soonest-eq-0 [] h e = refl
soonest-eq-0 ((p, at) ∷ w) (k, h) e = let l = soonest-lt at w h k in absurd (omega (arith, l, e))

-- The wait for the time `at`, raised to the shortest one.
bounded_wait :
    (at now : ℕ)
    → let wait = if ltb (at - now) min_wait then min_wait else at - now in
      (min_wait ≤ wait) × (at ≤ now + wait) × ((wait ≡ min_wait) ⊎ (now + wait ≡ at))
bounded_wait at now = elim (Bool-cases (ltb (at - now) min_wait)) [
  | inl t ↦ rw t (omega arith, ground arith, inl refl)
  | inr t ↦ rw t (ground arith, ground arith, inr (ground arith))
]

module _ {T : Type 0} (w : World T) (cfg : Config) where
  -- What the bound of a poll is for the entries in which it is asked: there is none for no entry,
  -- and otherwise it is that of the soonest entry.
  abbrev pub IsBound : Machine w.State → Option ℕ → Type 0
  IsBound s none = s.waiting ≡ []
  IsBound s (some n) =
      (p : ℕ) × (at : ℕ) × Occurs (p, at) s.waiting
      × All (λ e. at ≤ e.1) s.waiting
      × (min_wait ≤ n)
      × (at ≤ (w.now s.world).0 + n)
      × ((n ≡ min_wait) ⊎ ((w.now s.world).0 + n ≡ at))

  -- A poll is not bounded if nothing waits. Otherwise it waits for the soonest partition to become
  -- ripe, no shorter and no longer, or for the shortest wait if that is sooner, if every entry lies
  -- after the zero time.
  pub poll_deadline-IsBound :
      (s : Machine w.State) → AreLate s.waiting → IsBound s (poll_deadline w cfg s).0
  unfolding poll_deadline
  poll_deadline-IsBound s h =
      let at = soonest 0 s.waiting in
      let now = (w.now s.world).0 in
      elim (Bool-cases (soonest 0 s.waiting == 0)) [
        | inl z ↦ rw z (soonest-eq-0 s.waiting h ((==_iff at 0).0 z))
        | inr z ↦ elim (soonest-Occurs 0 s.waiting) [
          | inl e ↦ cc (rw e at z)
          | inr (p, o) ↦
              let (long, late, soon) = bounded_wait at now in
              rw z (p, at, o, (soonest-le 0 s.waiting h).1, long, late, soon)
        ]
      ]
