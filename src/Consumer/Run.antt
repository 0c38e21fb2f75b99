-- ===== src/Consumer/Run.antt =====
-- internal/consumer/consumer.go: `Run`, the bounded poll and the partitions that ripen.
use nine_core.Common.{
  ℕ, zero, suc, ◌-◌, ◌*◌, List, [], ◌∷◌, Option, none, some, Bool, true, false, ◌==◌, ltb,
  if◌then◌else◌, ◌||◌,
}
use nine_core.Errors.{GoError}
use nine_core.Consumer.{M, ret, note, ask, batch}
use nine_core.Consumer.Setup.{
  Config, Fetches, World, resumed, polled, rebalance_allowed, millisecond,
}

-- The partitions whose held record is ripe at `now`, and the others.
unfoldable pub ripened : ℕ → List (ℕ × ℕ) → List ℕ
ripened now [] = []
ripened now ((p, at) ∷ w) = if ltb now at then ripened now w else p ∷ ripened now w

unfoldable pub unripe : ℕ → List (ℕ × ℕ) → List (ℕ × ℕ)
unripe now [] = []
unripe now ((p, at) ∷ w) = if ltb now at then (p, at) ∷ unripe now w else unripe now w

-- The soonest deadline, from the zero time, which stands for none.
unfoldable pub soonest : ℕ → List (ℕ × ℕ) → ℕ
soonest z [] = z
soonest z ((p, at) ∷ w) = soonest (if z == 0 || ltb at z then at else z) w

abbrev pub min_wait : ℕ
min_wait = 10 * millisecond

module _ {T : Type 0} (w : World T) (cfg : Config) where
  abbrev pub note_resumed : List ℕ → M w cfg (Unit {0})
  note_resumed [] s = (tt, s)
  note_resumed (p ∷ ps) s = note w cfg (resumed (p ∷ ps)) s

  unfoldable pub resume_ripe : M w cfg (Unit {0})
  unfolding ripened unripe
  resume_ripe s =
      let now = (ask w cfg w.now s).0 in
      let s' = (ask w cfg w.now s).1 in
      note_resumed (ripened now s.waiting) (record s' { waiting = unripe now s.waiting })

  -- The bound of the poll; `none` is the caller's context itself.
  unfoldable pub poll_deadline : M w cfg (Option ℕ)
  unfolding soonest
  poll_deadline s =
      if soonest 0 s.waiting == 0
      then (none, s)
      else let now = (ask w cfg w.now s).0 in
        let wait = soonest 0 s.waiting - now in
        (some (if ltb wait min_wait then min_wait else wait), (ask w cfg w.now s).1)

  -- `pollCtx.Err() != nil` after `cancel()`: a context of its own is cancelled by then, and
  -- otherwise it is the caller's.
  unfoldable pub poll_context_ended : Option ℕ → M w cfg Bool
  poll_context_ended none = ask w cfg w.cancelled
  poll_context_ended (some wait) = ret w cfg true

  -- `ctx.Err() == nil && pollCtx.Err() != nil`.
  unfoldable pub deadline_passed : Option ℕ → M w cfg Bool
  deadline_passed d s =
      let s' = (ask w cfg w.cancelled s).1 in
      if (ask w cfg w.cancelled s).0 then (false, s') else poll_context_ended d s'

  unfoldable pub fetch : Option ℕ → M w cfg Fetches
  fetch d s =
      let s' = (ask w cfg (w.poll cfg.max_poll d) s).1 in
      let f = (ask w cfg (w.poll cfg.max_poll d) s).0 in (f, (note w cfg (polled f) s').1)

  -- The rest of a round, once the poll has returned: `none` is another round.
  unfoldable pub after_poll : Fetches → Bool → M w cfg (Option (Option GoError))
  after_poll f true s = (none, (note w cfg rebalance_allowed s).1)
  after_poll f false s = let r = batch w cfg f s in (if r.0.0 then some r.0.1 else none, r.1)

  -- One round of the loop of `Run`.
  unfoldable pub round : M w cfg (Option (Option GoError))
  round s =
      let s1 = (resume_ripe s).1 in
      let d = (poll_deadline s1).0 in
      let s2 = (poll_deadline s1).1 in
      let f = (fetch d s2).0 in
      let s3 = (fetch d s2).1 in after_poll f (deadline_passed d s3).0 (deadline_passed d s3).1

  -- `Run` for at most `fuel` rounds: `none` means that it still runs.
  unfoldable pub run : ℕ → M w cfg (Option (Option GoError))
  run zero s = (none, s)
  run (suc fuel) s = elim (round s).0 [
    | none ↦ run fuel (round s).1
    | some result ↦ (some result, (round s).1)
  ]
