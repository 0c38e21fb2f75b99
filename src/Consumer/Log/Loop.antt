-- ===== src/Consumer/Log/Loop.antt =====
-- internal/consumer/consumer.go: what the offsets of `Run` cover, over any number of rounds.
use nine_core.Common.{
  ℕ, zero, suc, ◌≤◌, Option, none, some, false, Bool-cases, inl, inr, ◌⊎◌, ◌≡◌, refl, ◌∙◌, arith,
  natural, Option-cases, Occurs-take,
}
use nine_core.Consumer.{ask, batch}
use nine_core.Consumer.Rounds.{resume_ripe_idle, poll_deadline-eq-none, round_undelayed}
use nine_core.Consumer.Run.{
  resume_ripe, poll_deadline, poll_context_ended, deadline_passed, fetch, after_poll, round, run,
}
use nine_core.Consumer.Setup.{Config, World, Machine}
use nine_core.Consumer.Prefix.{on}
use nine_core.Consumer.Frame.Poll.{
  first_half-Rel, resume_ripe-Rel, poll_deadline-Rel, deadline_passed-Rel,
}
use nine_core.Consumer.Log.{Client, Context, committed_records, IsGapless}
use nine_core.Consumer.Log.Steps.{IsClosed, Stays, staying, Silent, silence}
use nine_core.Consumer.Log.Reach.{Reaches, IsCaughtUp, Follows, IsPassed-later, batch-Advances}
use nine_core.Consumer.Log.Lasts.{after_poll-Ended, run-Ended}

module _ {T : Type 0} (w : World T) (cfg : Config) (c : Client w) (x : Context w)
    (undelayed : natural cfg.delay ≡ 0) where
  -- With no deadline the round goes on with what it has fetched, or the context has ended.
  unpassed :
      (d : Option ℕ) (s : Machine w.State)
      → d ≡ none
      → ((deadline_passed w cfg d s).0 ≡ false)
        ⊎ x.ending.HasEnded (deadline_passed w cfg d s).1.world
  unfolding deadline_passed poll_context_ended
  unpassed none s h = elim (Bool-cases (w.cancelled s.world).0) [
    | inl q ↦ rw q (inl refl)
    | inr q ↦
        let t = (ask w cfg w.cancelled s).1 in
        elim (Bool-cases (w.cancelled t.world).0) [
          | inl z ↦ rw (q, z) (inr (x.begins t.world z))
          | inr z ↦ rw (q, z) (inl refl)
        ]
  ]
  unpassed (some n) s h = cc

  fetched-Follows :
      (d : Option ℕ) (s s2 : Machine w.State)
      → Reaches w cfg c x s
      → Stays w cfg c x s s2
      → committed_records s2.trace ≡ committed_records s.trace
      → let o = fetch w cfg d s2 in Follows w cfg c x o.0 (deadline_passed w cfg d o.1).1
  unfolding fetch
  fetched-Follows d s s2 reached stays same p =
      let (from, many, le, row, last) = c.fetches cfg.max_poll d s2.world p in
      let o = fetch w cfg d s2 in
      let t = (deadline_passed w cfg d o.1).1 in
      let looked = deadline_passed-Rel (staying w cfg c x) d o.1 in
      let silent = deadline_passed-Rel (silence w cfg c x) d o.1 in
      let more : (n : ℕ) → c.others s.world n ≤ c.others t.world n =
        λ n. omega (arith, (stays.0 n).1, c.poll_grows cfg.max_poll d s2.world n, silent.1 n) in
      (
        from,
        many,
        λ y k. elim le [
          | inl l ↦ IsPassed-later w cfg c x s t (silent.0 ∙ same) more p y (
              reached p y (
                Occurs-take y from (c.position s.world p) (c.log p)
                  (omega (arith, l, (stays.0 p).0)) k))
          | inr l ↦
              inr
                (Occurs-take y from (c.others t.world p) (c.log p) (omega (arith, l, silent.1 p)) k)
        ],
        row,
        omega (arith, (looked.0 p).0, last),
      )

  abbrev Ended : Machine w.State → Type 0
  Ended s = x.ending.HasEnded s.world

  round-IsCaughtUp :
      (s : Machine w.State)
      → IsCaughtUp w cfg c x s
      → let r = round w cfg s in
        Ended r.1 ⊎ IsClosed w cfg c x r.1 × (r.0 ≡ none → IsCaughtUp w cfg c x r.1)
  unfolding round after_poll
  round-IsCaughtUp s (idle, gapless, reached) =
      let s1 = (resume_ripe w cfg s).1 in
      let d = (poll_deadline w cfg s1).0 in
      let s2 = (poll_deadline w cfg s1).1 in
      let o = fetch w cfg d s2 in
      let t = (deadline_passed w cfg d o.1).1 in
      let unbounded : d ≡ none =
        poll_deadline-eq-none w cfg s1 (resume_ripe_idle w cfg undelayed s idle) in
      let still = staying w cfg c x in
      let stays : Stays w cfg c x s s2 =
        still.joins s s1 s2
          (resume_ripe-Rel still s (λ qs. tt) (λ r ws. (λ p. (omega arith, omega arith), λ h. h)))
          (poll_deadline-Rel still s1) in
      let mute = silence w cfg c x in
      let resumes =
        resume_ripe-Rel mute s (λ qs. refl) (λ r ws. (refl, λ p. omega arith, λ h. h)) in
      let silent : Silent w cfg c x s s2 = mute.joins s s1 s2 resumes (poll_deadline-Rel mute s1) in
      let silent' : Silent w cfg c x s t =
        first_half-Rel mute s (λ qs. refl) (λ f. refl) (λ r ws. (refl, λ p. omega arith, λ h. h))
          tt in
      let follows = fetched-Follows d s s2 reached stays silent.0 in
      let (gapless', reached') =
        batch-Advances w cfg c x undelayed o.0 t (silent'.2 gapless) follows in
      let b = batch w cfg o.0 t in
      let idle' = (round_undelayed w cfg undelayed s idle).0 in
      elim (unpassed d o.1 unbounded) [
        | inr ended ↦
            inl (after_poll-Ended w cfg x.ending o.0 (deadline_passed w cfg d o.1).0 t ended)
        | inl through ↦ rw through (
            inr (
              gapless',
              λ q. elim (Bool-cases b.0.0) [
                | inl z ↦ cc (rw z at q)
                | inr z ↦ (rw through at idle', gapless', reached' z)
              ],
            ))
      ]

  -- What a run that ends in a state leaves, unless the context has ended.
  run-Ended_or :
      (fuel : ℕ) (s : Machine w.State)
      → IsCaughtUp w cfg c x s
      → Ended (run w cfg fuel s).1 ⊎ IsClosed w cfg c x (run w cfg fuel s).1
  unfolding run
  run-Ended_or zero s h = inr (h.1)
  run-Ended_or (suc fuel) s h =
      let t = (round w cfg s).1 in
      elim (Option-cases (round w cfg s).0) [
        | inl q ↦ elim (round-IsCaughtUp s h) [
          | inl ended ↦ inl (rw (q, run) (run-Ended w cfg x.ending fuel t ended))
          | inr (gapless, on) ↦ rw (q, run) (run-Ended_or fuel t (on q))
        ]
        | inr (y, q) ↦ elim (round-IsCaughtUp s h) [
          | inl ended ↦ inl (rw (q, run) ended)
          | inr (gapless, on) ↦ inr (rw (q, run) gapless)
        ]
      ]

  -- On a topic with no delay, however many rounds Run makes, as long as the context is not found
  -- to have ended behind them: no offset commit of it steps over a record of the log. Whatever the
  -- log holds at or below a committed offset, on the same partition, is committed by this call, by
  -- an earlier one that did not fail, or by another member of the group. The consumer starts with
  -- nothing held, no commit that left a gap, and everything in front of the client's positions
  -- committed; the client fetches as its documentation says, and a context that is found to have
  -- ended stays so.
  pub run-IsGapless :
      (fuel : ℕ) (s : Machine w.State)
      → IsCaughtUp w cfg c x s
      → (w.cancelled (run w cfg fuel s).1.world).0 ≡ false
      → IsGapless c.log (c.others (run w cfg fuel s).1.world) (run w cfg fuel s).1.trace
  run-IsGapless fuel s h not_over = elim (run-Ended_or fuel s h) [
    | inl ended ↦ let over = x.ending.over (run w cfg fuel s).1.world ended in cc
    | inr gapless ↦ gapless
  ]
