-- ===== src/Consumer/Pauses.antt =====
-- internal/consumer/consumer.go: which partitions the client has paused, between the rounds of
-- `Run` and the callbacks of a rebalance.
pub mod Table
pub mod Steps
pub mod Reached
mod Tests
use nine_core.Common.{ℕ, List, [], ◌∷◌, Option, Bool, true, false, not, ◌&&◌, ◌||◌, ◌==◌, ◌≡◌, All}
use nine_core.Kafka.{Record}
use nine_core.Errors.{GoError}
use nine_core.Consumer.{M}
use nine_core.Consumer.Setup.{
  Config, World, Machine, Call, paused, resumed, contains, forget, Fetches,
}
use nine_core.Consumer.Run.{resume_ripe, poll_deadline, deadline_passed, fetch, after_poll}

-- A partition that the map `waiting` has an entry for.
unfoldable pub waits_for : List (ℕ × ℕ) → ℕ → Bool
waits_for [] p = false
waits_for ((q, at) ∷ w) p = q == p || waits_for w p

-- A partition that the client has paused: paused partitions stay so until they are resumed.
unfoldable pub paused_now : List Call → ℕ → Bool
paused_now [] p = false
paused_now (paused q ∷ t) p = q == p || paused_now t p
paused_now (resumed qs ∷ t) p = not (contains qs p) && paused_now t p
paused_now (c ∷ t) p = paused_now t p

module _ {T : Type 0} (w : World T) (cfg : Config) where
  -- The callback of a revoked or lost partition.
  abbrev pub forgotten : List ℕ → Machine w.State → Machine w.State
  forgotten ps s = record s { waiting = forget ps s.waiting }

  -- The state in which a round polls, and what it fetches.
  abbrev pub before_poll : Machine w.State → Machine w.State
  before_poll s = (poll_deadline w cfg (resume_ripe w cfg s).1).1

  abbrev pub deadline : Machine w.State → Option ℕ
  deadline s = (poll_deadline w cfg (resume_ripe w cfg s).1).0

  abbrev pub fetches : Machine w.State → Fetches
  fetches s = (fetch w cfg (deadline s) (before_poll s)).0

  -- A round in which some partitions are revoked while it polls.
  unfoldable pub round_during : List ℕ → M w cfg (Option (Option GoError))
  round_during ps s =
      let s1 = forgotten ps (fetch w cfg (deadline s) (before_poll s)).1 in
      let passed = deadline_passed w cfg (deadline s) s1 in
      after_poll w cfg (fetches s) passed.0 passed.1

  -- One round, or one callback between two rounds; `May` says which partitions are revoked. A
  -- paused partition never produces a fetch.
  pub data Step (May : List ℕ → Type 0) (s t : Machine w.State) : Type 0 where
    rounds :
        (ps : List ℕ)
        → May ps
        → All (λ r. paused_now (before_poll s).trace r.partition ≡ false) (fetches s).records
        → t ≡ (round_during ps s).1
        → Step May s t
    revokes : (ps : List ℕ) → May ps → t ≡ forgotten ps s → Step May s t

  pub data Reach (May : List ℕ → Type 0) (s : Machine w.State) : Machine w.State → Type 0 where
    here : Reach May s s
    later : {t u : Machine w.State} → Reach May s t → Step May t u → Reach May s u
