-- ===== src/Consumer/Log.antt =====
-- internal/consumer/consumer.go: the log that the client fetches from, and the commits of a trace.
pub mod Steps
pub mod Batch
pub mod Lasts
pub mod Reach
pub mod Loop
pub mod Below
mod Tests
use nine_core.Common.{
  ◌⊎◌, ℕ, ◌+◌, ◌≤◌, List, [], ◌∷◌, ◌++◌, Option, none, some, Bool, true, false, ◌≡◌, Occurs, take,
  drop, ℤ,
}
use nine_core.Kafka.{Record}
use nine_core.Errors.{GoError}
use nine_core.Pipeline.{Outcome}
use nine_core.Consumer.Prefix.{on}
use nine_core.Consumer.Offsets.{Ascends}
use nine_core.Consumer.Setup.{
  World, Call, handled, forwarded, sought, paused, resumed, hooked, committed, polled,
  rebalance_allowed,
}
use nine_core.Consumer.Shutdown.{Ending}

-- The client's position does not move on, and what the other members committed does not go back.
abbrev pub Holds : {S : Type 0} → (S → ℕ → ℕ) → (S → ℕ → ℕ) → S → S → ℕ → Type 0
Holds position others s s' p = (position s' p ≤ position s p) × (others s p ≤ others s' p)

-- What the documentation of the Kafka client says of its polls. The log of a partition holds its
-- records from where the consumer started, in the order of their offsets; other members of the group
-- have committed so many of the first of them, and never fewer. A poll fetches some records in a
-- row, from the client's position on or from before it, or, when a rebalance has given the partition
-- back, from at most what the others have committed; and the position is at most behind them then.
-- No other call moves it on.
pub record Client {T : Type 0} (w : World T) : Type 1 where
  pub log : ℕ → List Record
  pub ascends : (p : ℕ) → Ascends (log p)
  pub position : w.State → ℕ → ℕ
  pub others : w.State → ℕ → ℕ
  pub fetches :
      (n : ℤ) (d : Option ℕ) (s : w.State) (p : ℕ)
      → (from : ℕ) × (many : ℕ) × ((from ≤ position s p) ⊎ (from ≤ others (w.poll n d s).1 p))
        × (on p (w.poll n d s).0.records ≡ take many (drop from (log p)))
        × (position (w.poll n d s).1 p ≤ from + many)
  pub poll_grows :
      (n : ℤ) (d : Option ℕ) (s : w.State) (p : ℕ) → others s p ≤ others (w.poll n d s).1 p
  pub handle_keeps : (m : T) (s : w.State) (p : ℕ) → Holds position others s (w.handle m s).1 p
  pub sink_keeps :
      (send : Record → Outcome → Option GoError → w.State → Option GoError × w.State)
      → w.sink ≡ some send
      → (r : Record) (o : Outcome) (e : Option GoError) (s : w.State) (p : ℕ)
      → Holds position others s (send r o e s).1 p
  pub hook_keeps :
      (hook : List Record → w.State → Option GoError × w.State)
      → w.hook ≡ some hook
      → (rs : List Record) (s : w.State) (p : ℕ) → Holds position others s (hook rs s).1 p
  pub now_keeps : (s : w.State) (p : ℕ) → Holds position others s (w.now s).1 p
  pub cancelled_keeps : (s : w.State) (p : ℕ) → Holds position others s (w.cancelled s).1 p
  pub commit_keeps :
      (rs : List Record) (s : w.State) (p : ℕ) → Holds position others s (w.commit_records rs s).1 p

-- A context that is found to have ended has ended, and stays so. It may end at any time.
pub record Context {T : Type 0} (w : World T) : Type 1 where
  pub ending : Ending w
  pub begins : (s : w.State) → (w.cancelled s).0 ≡ true → ending.HasEnded (w.cancelled s).1

abbrev pub is_commit : Call → Bool
is_commit (committed rs e) = true
is_commit _ = false

-- The records that the trace commits without an error.
abbrev pub committed_records : List Call → List Record
committed_records [] = []
committed_records (committed rs none ∷ t) = rs ++ committed_records t
committed_records (committed rs (some e) ∷ t) = committed_records t
committed_records (k ∷ t) = committed_records t

-- One of the first `k` records of a log.
abbrev pub IsAmong : ℕ → List Record → Record → Type 0
IsAmong k l y = Occurs y (take k l)

module _ (log : ℕ → List Record) (others : ℕ → ℕ) where
  -- Whatever the log holds at or below the offset of a record, on its partition, is one of the
  -- records `rs` itself, or was committed before, by this member or by the others.
  abbrev pub Covers : List Record → List Record → Type 0
  Covers rs before =
      (x y : Record)
      → Occurs x rs
      → Occurs y (log x.partition)
      → y.offset ≤ x.offset
      → Occurs y (rs ++ before) ⊎ IsAmong (others x.partition) (log x.partition) y

  -- No commit of a trace steps over a record of the log: it commits what lies below its own records,
  -- or that was committed before or by the other members.
  abbrev pub IsGapless : List Call → Type 0
  IsGapless [] = Unit
  IsGapless (committed rs e ∷ t) = Covers rs (committed_records t) × IsGapless t
  IsGapless (k ∷ t) = IsGapless t
