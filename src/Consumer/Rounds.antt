-- ===== src/Consumer/Rounds.antt =====
-- The rounds of `Run`: what becomes of the records that a poll fetched.
use nine_core.Common.{
  ℕ, List, [], ◌∷◌, Option, none, some, Bool, true, false, Bool-cases, ==_iff, inl, inr, ◌⊎◌, ◌==◌,
  if◌then◌else◌, natural, ◌≡◌, ◌≢◌, refl, All-each, ap, ◌∙◌, arith,
}
use nine_core.Kafka.{Record}
use nine_core.Consumer.{ripe, one, look, batch}
use nine_core.Consumer.Run.{
  resume_ripe, poll_deadline, poll_context_ended, deadline_passed, fetch, after_poll, round,
  soonest, ripened, unripe,
}
use nine_core.Consumer.Look.{look_cases}
use nine_core.Consumer.Frame.{Frame, one-Rel, judge-Rel}
use nine_core.Consumer.Batches.{after_poll-keeps_if}
use nine_core.Consumer.Setup.{Config, World, Machine, polled, rebalance_allowed, Fetches}

module _ {T : Type 0} (w : World T) (cfg : Config) where
  -- The state of a round up to its poll.
  abbrev pub resumed_state : Machine w.State → Machine w.State
  resumed_state s = (resume_ripe w cfg s).1

  abbrev pub bound : Machine w.State → Option ℕ
  bound s = (poll_deadline w cfg (resumed_state s)).0

  abbrev bounded_state : Machine w.State → Machine w.State
  bounded_state s = (poll_deadline w cfg (resumed_state s)).1

  -- What the poll of a round fetches, and the state behind it.
  abbrev pub fetched : Machine w.State → Fetches
  fetched s = (fetch w cfg (bound s) (bounded_state s)).0

  abbrev pub polled_state : Machine w.State → Machine w.State
  polled_state s = (fetch w cfg (bound s) (bounded_state s)).1

  poll_deadline-waiting :
      (s : Machine w.State)
      → ((poll_deadline w cfg s).1.waiting ≡ s.waiting)
        × ((poll_deadline w cfg s).1.trace ≡ s.trace)
  unfolding poll_deadline
  poll_deadline-waiting s = ground arith

  poll_deadline-ne-none :
      (s : Machine w.State) → soonest 0 s.waiting ≢ 0 → (poll_deadline w cfg s).0 ≢ none
  unfolding poll_deadline
  poll_deadline-ne-none s h = ground arith

  pub poll_deadline-eq-none :
      (s : Machine w.State) → s.waiting ≡ [] → (poll_deadline w cfg s).0 ≡ none
  unfolding poll_deadline soonest
  poll_deadline-eq-none s h = rw h

  fetch-waiting :
      (d : Option ℕ) (s : Machine w.State)
      → ((fetch w cfg d s).1.waiting ≡ s.waiting)
        × ((fetch w cfg d s).1.trace ≡ polled (fetch w cfg d s).0 ∷ s.trace)
  unfolding fetch
  fetch-waiting d s = (refl, refl)

  deadline_passed-waiting :
      (d : Option ℕ) (s : Machine w.State)
      → ((deadline_passed w cfg d s).1.waiting ≡ s.waiting)
        × ((deadline_passed w cfg d s).1.trace ≡ s.trace)
  unfolding deadline_passed poll_context_ended
  deadline_passed-waiting none s = ground arith
  deadline_passed-waiting (some at) s = ground arith

  -- A context of its own has ended by the time that it is looked at, whatever time is left of it.
  deadline_passed-eq-true :
      (d : Option ℕ) (s : Machine w.State)
      → d ≢ none
      → (w.cancelled s.world).0 ≡ false
      → (deadline_passed w cfg d s).0 ≡ true
  unfolding deadline_passed poll_context_ended
  deadline_passed-eq-true none s h c = absurd (h refl)
  deadline_passed-eq-true (some at) s h c = ground arith

  -- If a partition still waits for its record when the round polls, and the caller's context has
  -- not ended by the first look at it behind the poll, then the round ends with nothing done: the
  -- fetched records reach neither the handler nor the sink, no partition is set back to them or
  -- paused for them, and the loop goes on with the next poll.
  pub round_discards :
      (s : Machine w.State)
      → soonest 0 (resumed_state s).waiting ≢ 0
      → (w.cancelled (polled_state s).world).0 ≡ false
      → ((round w cfg s).0 ≡ none)
        × ((round w cfg s).1.waiting ≡ (resumed_state s).waiting)
        × ((round w cfg s).1.trace
            ≡ rebalance_allowed ∷ polled (fetched s) ∷ (resumed_state s).trace)
  unfolding round after_poll
  round_discards s h c =
      let passed =
        deadline_passed-eq-true (bound s) (polled_state s)
          (poll_deadline-ne-none (resumed_state s) h) c in
      let (w1, t1) = deadline_passed-waiting (bound s) (polled_state s) in
      let (w2, t2) = fetch-waiting (bound s) (bounded_state s) in
      let (w3, t3) = poll_deadline-waiting (resumed_state s) in
      (
        rw passed,
        rw passed (w1 ∙ w2 ∙ w3),
        rw passed (ap (λ t. rebalance_allowed ∷ t) (t1 ∙ t2 ∙ ap (λ t. polled (fetched s) ∷ t) t3)),
      )

  deadline_passed_unbounded :
      (d : Option ℕ) (s : Machine w.State)
      → d ≡ none
      → (deadline_passed w cfg d s).0 ≡ true
      → (w.cancelled (w.cancelled s.world).1).0 ≡ true
  unfolding deadline_passed poll_context_ended
  deadline_passed_unbounded none s h e = ground arith
  deadline_passed_unbounded (some at) s h e = cc

  -- The same partitions wait.
  abbrev steady : Frame w cfg
  steady = record {
    Rel = λ s s'. s'.waiting ≡ s.waiting;
    Okay = λ c. Unit {0};
    For = λ r. Unit {0};
    same = λ s. refl;
    joins = λ a b c x y. y ∙ x;
    notes = λ c s o. refl;
    handles = λ r m s u e. refl;
    sends = λ send q r o e s u. refl;
    asks_now = λ s. refl;
    asks_cancelled = λ s. refl;
    Polls = Unit {0};
    polls = λ u n d s. refl;
    commits = λ rs s. refl;
    hooks = λ hook q rs s. refl;
  }

  abbrev IsIdle : Machine w.State → Type 0
  IsIdle s = s.waiting ≡ []

  module _ (undelayed : natural cfg.delay ≡ 0) where
    pub ripe_undelayed :
        (r : Record) (s : Machine w.State)
        → ((ripe w cfg r s).0.1 ≡ true) × ((ripe w cfg r s).1 ≡ s)
    unfolding ripe
    ripe_undelayed r s =
        let t : (natural cfg.delay == 0) ≡ true = (==_iff _ 0).1 undelayed in rw t (refl, refl)

    -- With no delay no partition is ever held.
    look-IsIdle :
        (held : List ℕ) (r : Record) (s : Machine w.State)
        → Unit {0}
        → IsIdle s
        → IsIdle (look w cfg held r s).1
    look-IsIdle held r s u h =
        let s1 = (ripe w cfg r s).1 in
        let f = (one w cfg r s1).0 in
        let s2 = (one w cfg r s1).1 in
        let (due, same) = ripe_undelayed r s in
        look_cases w cfg (λ v t. IsIdle t) held r s (λ e. h) (λ e d. cc)
          (λ e d.
            judge-Rel steady f s2
            ∙ one-Rel steady r s1 (tt, λ o. tt, λ o e. tt)
            ∙ ap (λ m. m.waiting) same
            ∙ h)

    pub resume_ripe_idle :
        (s : Machine w.State) → s.waiting ≡ [] → (resume_ripe w cfg s).1.waiting ≡ []
    unfolding resume_ripe ripened unripe
    resume_ripe_idle s h = rw h

    after_poll-IsIdle :
        (f : Fetches) (b : Bool) (s : Machine w.State)
        → IsIdle s
        → IsIdle (after_poll w cfg f b s).1
    after_poll-IsIdle f b s =
        after_poll-keeps_if steady IsIdle (λ r. Unit {0}) (λ a b e h. e ∙ h) look-IsIdle
          (λ rs e. tt) (λ rs e. tt) tt f b s (All-each _ f.records (λ r. tt))

    -- With no delay a consumer that holds nothing goes on holding nothing, and a round hands to
    -- `batch` exactly what its poll fetched, unless the context ends between the two looks at it.
    pub round_undelayed :
        (s : Machine w.State)
        → s.waiting ≡ []
        → let s' = (deadline_passed w cfg (bound s) (polled_state s)).1 in
          ((round w cfg s).1.waiting ≡ [])
          × (((w.cancelled (w.cancelled (polled_state s).world).1).0 ≡ true)
              ⊎ (((round w cfg s).1 ≡ (batch w cfg (fetched s) s').1)
                  × ((round w cfg s).0 ≡ (
                      if (batch w cfg (fetched s) s').0.0
                      then some (batch w cfg (fetched s) s').0.1
                      else none))))
    unfolding round after_poll
    round_undelayed s h =
        let d = deadline_passed w cfg (bound s) (polled_state s) in
        (
          after_poll-IsIdle (fetched s) d.0 d.1 (
              (deadline_passed-waiting (bound s) (polled_state s)).0
              ∙ (fetch-waiting (bound s) (bounded_state s)).0
              ∙ (poll_deadline-waiting (resumed_state s)).0
              ∙ resume_ripe_idle s h),
          elim (Bool-cases d.0) [
            | inl e ↦ inl (
                deadline_passed_unbounded (bound s) (polled_state s)
                  (poll_deadline-eq-none (resumed_state s) (resume_ripe_idle s h)) e)
            | inr e ↦ inr (rw e (refl, refl))
          ],
        )
