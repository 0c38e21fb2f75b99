-- ===== src/Consumer/Frame/Poll.antt =====
-- internal/consumer/consumer.go: what a round keeps up to the end of its poll.
use nine_core.Common.{ℕ, List, [], ◌∷◌, Option, none, some, Bool-cases, inl, inr, ◌==◌}
use nine_core.Consumer.{ask}
use nine_core.Consumer.Run.{
  note_resumed, resume_ripe, poll_deadline, poll_context_ended, deadline_passed, fetch, ripened,
  unripe, soonest,
}
use nine_core.Consumer.Setup.{Config, World, Machine, resumed, polled, Fetches}
use nine_core.Consumer.Frame.{Frame, Waits}

module _ {T : Type 0} {w : World T} {cfg : Config} (f : Frame w cfg) where
  note_resumed-Rel :
      (ps : List ℕ) (s : Machine w.State)
      → ((qs : List ℕ) → f.Okay (resumed qs))
      → f.Rel s (note_resumed w cfg ps s).1
  note_resumed-Rel [] s okay = f.same s
  note_resumed-Rel (x ∷ xs) s okay = f.notes (resumed (x ∷ xs)) s (okay (x ∷ xs))

  pub resume_ripe-Rel :
      (s : Machine w.State)
      → ((qs : List ℕ) → f.Okay (resumed qs))
      → Waits f
      → f.Rel s (resume_ripe w cfg s).1
  unfolding resume_ripe
  resume_ripe-Rel s okay waits =
      let at = (w.now s.world).0 in
      let s1 = (ask w cfg w.now s).1 in
      let s2 = record s1 { waiting = unripe at s.waiting } in
      f.joins s s1 _ (f.asks_now s)
        (f.joins s1 s2 _ (waits s1 _) (note_resumed-Rel (ripened at s.waiting) s2 okay))

  pub poll_deadline-Rel : (s : Machine w.State) → f.Rel s (poll_deadline w cfg s).1
  unfolding poll_deadline
  poll_deadline-Rel s = elim (Bool-cases (soonest 0 s.waiting == 0)) [
    | inl z ↦ rw z (f.same s)
    | inr z ↦ rw z (f.asks_now s)
  ]

  poll_context_ended-Rel :
      (d : Option ℕ) (s : Machine w.State) → f.Rel s (poll_context_ended w cfg d s).1
  unfolding poll_context_ended
  poll_context_ended-Rel none s = f.asks_cancelled s
  poll_context_ended-Rel (some wait) s = f.same s

  pub deadline_passed-Rel :
      (d : Option ℕ) (s : Machine w.State) → f.Rel s (deadline_passed w cfg d s).1
  unfolding deadline_passed
  deadline_passed-Rel d s =
      let s1 = (ask w cfg w.cancelled s).1 in
      elim (Bool-cases (w.cancelled s.world).0) [
        | inl c ↦ rw c (f.asks_cancelled s)
        | inr c ↦ rw c (f.joins s s1 _ (f.asks_cancelled s) (poll_context_ended-Rel d s1))
      ]

  pub fetch-Rel :
      (d : Option ℕ) (s : Machine w.State)
      → ((x : Fetches) → f.Okay (polled x))
      → f.Polls
      → f.Rel s (fetch w cfg d s).1
  unfolding fetch
  fetch-Rel d s okay may =
      let s1 = (ask w cfg (w.poll cfg.max_poll d) s).1 in
      f.joins s s1 _ (f.polls may cfg.max_poll d s) (f.notes (polled _) s1 (okay _))

  -- The first half of a round, up to the test of the deadline.
  pub first_half-Rel :
      (s : Machine w.State)
      → ((qs : List ℕ) → f.Okay (resumed qs))
      → ((x : Fetches) → f.Okay (polled x))
      → Waits f
      → f.Polls
      → let s1 = (resume_ripe w cfg s).1 in
        let d = (poll_deadline w cfg s1).0 in
        let s3 = (fetch w cfg d (poll_deadline w cfg s1).1).1 in
        f.Rel s (deadline_passed w cfg d s3).1
  first_half-Rel s okay okay' waits may =
      let s1 = (resume_ripe w cfg s).1 in
      let d = (poll_deadline w cfg s1).0 in
      let s2 = (poll_deadline w cfg s1).1 in
      let s3 = (fetch w cfg d s2).1 in
      f.joins s s1 _ (resume_ripe-Rel s okay waits) (
        f.joins s1 s2 _ (poll_deadline-Rel s1)
          (f.joins s2 s3 _ (fetch-Rel d s2 okay' may) (deadline_passed-Rel d s3)))
