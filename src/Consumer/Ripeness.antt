-- ===== src/Consumer/Ripeness.antt =====
-- internal/consumer/consumer.go: the delay of a topic, over the whole loop of `Run`.
mod Tests
use nine_core.Common.{
  ℕ, zero, suc, ◌+◌, ◌≤◌, ◌<◌, List, [], ◌∷◌, Option, none, some, Bool, true, false, Bool-cases,
  Option-cases, not, natural, ltb, ◌==◌, if◌then◌else◌, ◌≡◌, refl, ◌⊎◌, inl, inr, arith, ℤ, Occurs,
  All,
}
use nine_core.Kafka.{Record}
use nine_core.Errors.{GoError}
use nine_core.Pipeline.{Outcome}
use nine_core.Consumer.{ask, note, ripe, hold, one, judge, look}
use nine_core.Consumer.Look.{look_cases}
use nine_core.Consumer.Frame.{Frame, one-Rel, judge-Rel, ripe-Rel, hold-Rel}
use nine_core.Consumer.Frame.Poll.{first_half-Rel}
use nine_core.Consumer.Batches.{after_poll-keeps_if}
use nine_core.Consumer.Run.{
  resume_ripe, poll_deadline, deadline_passed, fetch, after_poll, round, run,
}
use nine_core.Consumer.Setup.{Config, World, Machine, decoded, Fetches}

-- A clock of the world that is never set back and that `now` reads, what holds of every record that
-- a poll fetches, and a guarantee of the world that the handler and the sink keep if the record
-- which they are given is such a one and has aged by the delay by then, and that every other call
-- keeps.
pub record Gate {T : Type 0} (w : World T) (cfg : Config) : Type 1 where
  pub time : w.State → ℕ
  pub Good : w.State → Type 0
  pub IsServed : Record → Type 0
  pub now_reads : (s : w.State) → (w.now s).0 ≤ time (w.now s).1
  pub handle_later : (m : T) (s : w.State) → time s ≤ time (w.handle m s).1
  pub handle_keeps :
      (r : Record) (m : T) (s : w.State)
      → IsServed r
      → w.decode r.key r.value ≡ decoded m
      → r.timestamp + natural cfg.delay ≤ time s
      → Good s
      → Good (w.handle m s).1
  pub sink_keeps :
      (send : Record → Outcome → Option GoError → w.State → Option GoError × w.State)
      → w.sink ≡ some send
      → (r : Record) (o : Outcome) (e : Option GoError) (s : w.State) → IsServed r
      → r.timestamp + natural cfg.delay ≤ time s
      → Good s
      → Good (send r o e s).1 × (time s ≤ time (send r o e s).1)
  pub hook_keeps :
      (hook : List Record → w.State → Option GoError × w.State)
      → w.hook ≡ some hook
      → (rs : List Record) (s : w.State) → Good s
      → Good (hook rs s).1 × (time s ≤ time (hook rs s).1)
  pub now_keeps : (s : w.State) → Good s → Good (w.now s).1 × (time s ≤ time (w.now s).1)
  pub cancelled_keeps :
      (s : w.State) → Good s → Good (w.cancelled s).1 × (time s ≤ time (w.cancelled s).1)
  pub poll_serves : (n : ℤ) (d : Option ℕ) (s : w.State) → All IsServed (w.poll n d s).0.records
  pub poll_keeps :
      (n : ℤ) (d : Option ℕ) (s : w.State)
      → Good s
      → Good (w.poll n d s).1 × (time s ≤ time (w.poll n d s).1)
  pub commit_keeps :
      (rs : List Record) (s : w.State)
      → Good s
      → Good (w.commit_records rs s).1 × (time s ≤ time (w.commit_records rs s).1)

module _ {T : Type 0} (w : World T) (cfg : Config) (g : Gate w cfg) where
  abbrev IsGood : Machine w.State → Type 0
  IsGood s = g.Good s.world

  -- The steps that give only records which have aged at the time `n`, from that time on.
  abbrev Gating : ℕ → Machine w.State → Machine w.State → Type 0
  Gating n s s' = n ≤ g.time s.world → IsGood s → IsGood s' × (g.time s.world ≤ g.time s'.world)

  gating : ℕ → Frame w cfg
  gating n = record {
    Rel = Gating n;
    Okay = λ x. Unit {0};
    For = λ r. g.IsServed r × (r.timestamp + natural cfg.delay ≤ n);
    same = λ s h k. (k, omega arith);
    joins = λ a b d f f' h k.
        let (k', t) = f h k in
        let (k'', t') = f' (omega (arith, h, t)) k' in (k'', omega (arith, t, t'));
    notes = λ x s okay h k. (k, omega arith);
    handles = λ r m s a q h k.
        (g.handle_keeps r m s.world a.0 q (omega (arith, a.1, h)) k, g.handle_later m s.world);
    sends = λ send q r o e s a h. g.sink_keeps send q r o e s.world a.0 (omega (arith, a.1, h));
    asks_now = λ s h. g.now_keeps s.world;
    asks_cancelled = λ s h. g.cancelled_keeps s.world;
    Polls = Unit {0};
    polls = λ u m d s h. g.poll_keeps m d s.world;
    commits = λ rs s h. g.commit_keeps rs s.world;
    hooks = λ hook q rs s h. g.hook_keeps hook q rs s.world;
  }

  -- A record that is ripe has aged.
  ripe_aged :
      (r : Record) (s : Machine w.State)
      → (natural cfg.delay == 0) ≡ false
      → (ripe w cfg r s).0.1 ≡ true
      → r.timestamp + natural cfg.delay ≤ g.time (ripe w cfg r s).1.world
  unfolding ripe
  ripe_aged r s z d = rw z (ground (arith, rw z at d, g.now_reads s.world))

  module _ (delayed : (natural cfg.delay == 0) ≡ false) where
    look-IsGood :
        (hs : List ℕ) (r : Record) (s : Machine w.State)
        → g.IsServed r
        → IsGood s
        → IsGood (look w cfg hs r s).1
    unfolding gating
    look-IsGood hs r s a k =
        let s1 = (ripe w cfg r s).1 in
        let (k1, t1) = ripe-Rel (gating 0) r s (omega arith) k in
        look_cases w cfg (λ v t. IsGood t) hs r s (λ e. k)
          (λ e d.
            (hold-Rel (gating 0) r _ s1 tt tt (λ t ws h j. (j, omega arith)) (omega arith) k1).0)
          (λ e d.
            let n = r.timestamp + natural cfg.delay in
            let s2 = (one w cfg r s1).1 in
            let (k2, t2) =
              one-Rel (gating n) r s1 ((a, omega arith), λ o. tt, λ o e. tt)
                (ripe_aged r s delayed d) k1 in
            (judge-Rel (gating 0) (one w cfg r s1).0 s2 (omega arith) k2).0)

    round-IsGood : (s : Machine w.State) → IsGood s → IsGood (round w cfg s).1
    unfolding round fetch gating
    round-IsGood s k =
        let s1 = (resume_ripe w cfg s).1 in
        let d = (poll_deadline w cfg s1).0 in
        let s3 = (fetch w cfg d (poll_deadline w cfg s1).1).1 in
        let f = (fetch w cfg d (poll_deadline w cfg s1).1).0 in
        let passed = deadline_passed w cfg d s3 in
        let (k3, t3) =
          first_half-Rel (gating 0) s (λ qs. tt) (λ y. tt) (λ t ws h j. (j, omega arith)) tt
            (omega arith) k in
        after_poll-keeps_if (gating 0) IsGood g.IsServed (λ a b f j. (f (omega arith) j).0)
          look-IsGood (λ rs e. tt) (λ rs e. tt) tt f passed.0 passed.1
          (g.poll_serves cfg.max_poll d _) k3

    -- On a topic with a delay, whatever a handler and a sink guarantee that are only ever given
    -- records which have aged by the delay at the time of the call, holds however many rounds Run
    -- makes: neither is given a younger record.
    pub run-IsGood : (fuel : ℕ) (s : Machine w.State) → IsGood s → IsGood (run w cfg fuel s).1
    unfolding run
    run-IsGood zero s k = k
    run-IsGood (suc fuel) s k = elim (Option-cases (round w cfg s).0) [
      | inl q ↦ rw (q, run) (run-IsGood fuel (round w cfg s).1 (round-IsGood s k))
      | inr (y, q) ↦ rw (q, run) (round-IsGood s k)
    ]
