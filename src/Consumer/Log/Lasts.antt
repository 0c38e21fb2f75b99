-- ===== src/Consumer/Log/Lasts.antt =====
-- internal/consumer/consumer.go: a context that has ended stays so through the rounds of `Run`.
use nine_core.Common.{Bool, ℕ, zero, suc, Option-cases, All-each, inl, inr}
use nine_core.Consumer.Run.{after_poll, fetch, poll_deadline, resume_ripe, round, run}
use nine_core.Consumer.Setup.{Config, World, Machine, Fetches}
use nine_core.Consumer.Shutdown.{Ending, ending, look-Ended, fetched-Ended}
use nine_core.Consumer.Frame.Poll.{deadline_passed-Rel}
use nine_core.Consumer.Batches.{after_poll-keeps_if}

module _ {T : Type 0} (w : World T) (cfg : Config) (x : Ending w) where
  abbrev Ended : Machine w.State → Type 0
  Ended s = x.HasEnded s.world

  pub after_poll-Ended :
      (f : Fetches) (b : Bool) (s : Machine w.State) → Ended s → Ended (after_poll w cfg f b s).1
  unfolding ending
  after_poll-Ended f b s =
      after_poll-keeps_if (ending w cfg x) Ended (λ r. Unit {0}) (λ a b f k. f k)
        (λ hs r t u k. look-Ended w cfg x hs r t k) (λ rs e. tt) (λ rs e. tt) tt f b s
        (All-each _ f.records (λ r. tt))

  round-Ended : (s : Machine w.State) → Ended s → Ended (round w cfg s).1
  unfolding round ending
  round-Ended s h =
      let s1 = (resume_ripe w cfg s).1 in
      let d = (poll_deadline w cfg s1).0 in
      let o = fetch w cfg d (poll_deadline w cfg s1).1 in
      after_poll-Ended o.0 _ _
        (deadline_passed-Rel (ending w cfg x) d o.1 (fetched-Ended w cfg x s h))

  pub run-Ended : (fuel : ℕ) (s : Machine w.State) → Ended s → Ended (run w cfg fuel s).1
  unfolding run
  run-Ended zero s h = h
  run-Ended (suc fuel) s h = elim (Option-cases (round w cfg s).0) [
    | inl q ↦ rw (q, run) (run-Ended fuel (round w cfg s).1 (round-Ended s h))
    | inr (y, q) ↦ rw (q, run) (round-Ended s h)
  ]
