-- ===== src/Consumer.antt =====
-- internal/consumer/consumer.go: one batch of records, from the poll to the offset commit.
pub mod Setup
pub mod Run
pub mod Look
pub mod Prefix
pub mod Accounted
pub mod Offsets
pub mod Order
pub mod Rounds
pub mod Frame
pub mod Batches
pub mod Ripeness
pub mod Deadline
pub mod Log
pub mod Promise
pub mod Shutdown
pub mod Pauses
mod Tests
use nine_core.Common.{
  ℕ, zero, suc, ◌+◌, ◌-◌, List, [], ◌∷◌, ◌++◌, Option, none, some, Bool, true, false, Bytes, codes,
  not, ◌==◌, ltb, if◌then◌else◌, ◌||◌, ◌*◌, natural, ◌≡◌, refl, get_text,
}
use nine_core.Errors.{GoError, wrap, of_sentinel, stopped}
use nine_core.Strconv.{decimal}
use nine_core.Pipeline.{Outcome, unknown, done, retry, poison, fatal, other, outcome_string}
use nine_core.Kafka.{Record}
use Setup.{
  Config, Decoded, decoded, undecodable, Fetches, World, Call, handled, forwarded, sought, paused,
  resumed, hooked, committed, polled, rebalance_allowed, Machine, put, delete, contains,
  millisecond,
}

-- An error that wraps `ErrStopped`, with what follows its text.
abbrev stop_with : Bytes → GoError
stop_with t = wrap [] (of_sentinel stopped (codes "consumer stopped")) t

abbrev place : Record → Bytes
place r = codes "partition " ++ (decimal r.partition ++ (codes " offset " ++ decimal r.offset))

abbrev outcome_text : Outcome → Bytes
outcome_text o = get_text (outcome_string o)

abbrev no_sink : Record → Outcome → GoError
no_sink r o =
    stop_with (codes ": " ++ (outcome_text o ++ (codes " with no sink to forward to, " ++ place r)))

abbrev forward_failed : Record → GoError → GoError
forward_failed r e = stop_with (codes ": forward failed, " ++ (place r ++ (codes ": " ++ e.text)))

abbrev error_text : Option GoError → Bytes
error_text none = codes "<nil>"
error_text (some e) = e.text

abbrev fatal_at : Record → Option GoError → GoError
fatal_at r e = stop_with (codes ": fatal at " ++ (place r ++ (codes ": " ++ error_text e)))

abbrev unknown_at : Record → GoError
unknown_at r = stop_with (codes ": handler answered Unknown at " ++ place r)

-- What became of one record of a batch.
pub data Verdict : Type 0 where
  passed_over held_back accounted left : Verdict
  stopped_by : GoError → Verdict

module _ {T : Type 0} (w : World T) (cfg : Config) where
  abbrev pub M : Type 0 → Type 0
  M A = Machine w.State → A × Machine w.State

  infixl 5 ◌>>=◌ ◌>>◌
  abbrev pub ◌>>=◌ : {A B : Type 0} → M A → (A → M B) → M B
  ◌>>=◌ m f s = f (m s).0 (m s).1

  abbrev pub ◌>>◌ : {A B : Type 0} → M A → M B → M B
  ◌>>◌ m k s = k (m s).1

  abbrev pub ret : {A : Type 0} → A → M A
  ret a s = (a, s)

  abbrev pub note : Call → M (Unit {0})
  note c s = (tt, record s { trace = c ∷ s.trace })

  -- A call of the world.
  abbrev pub ask : {A : Type 0} → (w.State → A × w.State) → M A
  ask f s = ((f s.world).0, record s { world = (f s.world).1 })

  unfoldable pub ripe : Record → M (ℕ × Bool)
  ripe r = if natural cfg.delay == 0 then ret (0, true) else do
    now ← ask w.now
    let until = r.timestamp + natural cfg.delay
    ret (until, not (ltb now until))

  pub hold : Record → ℕ → M (Unit {0})
  unfolding put
  hold r until = do
    note (sought r.partition r.offset)
    note (paused r.partition)
    λ s. (tt, record s { waiting = put r.partition until s.waiting })

  -- Forwarding of a record that the handler answered `o` for.
  unfoldable pub forward : Record → Outcome → Option GoError → M (Option GoError)
  forward r o err = elim w.sink [
    | none ↦ ret (some (no_sink r o))
    | some send ↦ do
      ferr ← ask (send r o err)
      note (forwarded r o ferr)
      elim ferr [ none ↦ ret none | some e ↦ ret (some (forward_failed r e)) ]
  ]

  unfoldable pub answer : Record → M (Outcome × Option GoError)
  answer r = elim (w.decode r.key r.value) [
    | undecodable e ↦ ret (poison, some e)
    | decoded msg ↦ do a ← ask (w.handle msg); note (handled r a.0); ret a
  ]

  -- The switch of `one`.
  unfoldable pub settle : Record → Outcome → Option GoError → M (Option GoError)
  unfolding forward
  settle r done err = ret none
  settle r retry err = forward r retry err
  settle r poison err = forward r poison err
  settle r fatal err = ret (some (fatal_at r err))
  settle r unknown err = ret (some (unknown_at r))
  settle r (other n) err = ret (some (unknown_at r))

  unfoldable pub one : Record → M (Option GoError)
  unfolding answer settle
  one r = do a ← answer r; settle r a.0 a.1

  -- What follows `one` in the loop: a failure under a cancelled context is no failure of the record.
  unfoldable pub judge : Option GoError → M Verdict
  judge none = ret accounted
  judge (some e) = do over ← ask w.cancelled; ret (if over then left else stopped_by e)

  -- The body of the loop of `process`.
  unfoldable pub look : List ℕ → Record → M Verdict
  look held r =
      if contains held r.partition
      then ret passed_over
      else do u ← ripe r; if u.1 then (do e ← one r; judge e) else (do hold r u.0; ret held_back)

  -- How the loop goes on: `loop` is the rest of it, over the partitions held and the records
  -- accounted for by then.
  unfoldable pub next :
      Verdict
      → Record
      → List ℕ
      → List Record
      → (List ℕ → List Record → M (List Record × Option GoError))
      → M (List Record × Option GoError)
  next passed_over r held acked loop = loop held acked
  next held_back r held acked loop = loop (r.partition ∷ held) acked
  next accounted r held acked loop = loop held (acked ++ r ∷ [])
  next left r held acked loop = ret (acked, none)
  next (stopped_by e) r held acked loop = ret (acked, some e)

  -- `process` over the records that the batch still holds.
  unfoldable pub process_from :
      List Record → List ℕ → List Record → M (List Record × Option GoError)
  unfolding next
  process_from [] held acked s = ((acked, none), s)
  process_from (r ∷ rs) held acked s =
      next (look held r s).0 r held acked (process_from rs) (look held r s).1

  unfoldable pub process : List Record → M (List Record × Option GoError)
  unfolding process_from
  process rs = process_from rs [] []

  abbrev hook_refused : GoError → GoError
  hook_refused e = stop_with (codes ": commit hook refused: " ++ e.text)

  abbrev commit_failed : GoError → GoError
  commit_failed e = stop_with (codes ": offset commit failed: " ++ e.text)

  unfoldable pub commit_offsets : List Record → M (Option GoError)
  commit_offsets acked = do
    e ← ask (w.commit_records acked)
    note (committed acked e)
    elim e [ none ↦ ret none | some x ↦ ret (some (commit_failed x)) ]

  unfoldable pub commit : List Record → M (Option GoError)
  commit [] = ret none
  commit (r ∷ rs) = elim w.hook [
    | none ↦ commit_offsets (r ∷ rs)
    | some hook ↦ do
      e ← ask (hook (r ∷ rs))
      note (hooked (r ∷ rs) e)
      elim e [ none ↦ commit_offsets (r ∷ rs) | some x ↦ ret (some (hook_refused x)) ]
  ]

  -- How `batch` ends after `commit` answered.
  unfoldable pub conclude : Option GoError → Option GoError → M (Bool × Option GoError)
  conclude (some e) stop = ret (true, some e)
  conclude none (some e) = ret (true, some e)
  conclude none none = do over ← ask w.cancelled; ret (over, none)

  unfoldable pub batch_body : Fetches → M (Bool × Option GoError)
  batch_body f =
      if f.closed
      then ret (true, none)
      else do p ← process f.records; e ← commit p.0; conclude e p.1

  -- `batch`: the deferred call runs on every path.
  unfoldable pub batch : Fetches → M (Bool × Option GoError)
  unfolding batch_body
  batch f = do r ← batch_body f; note rebalance_allowed; ret r
