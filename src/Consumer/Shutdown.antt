-- ===== src/Consumer/Shutdown.antt =====
-- internal/consumer/consumer.go: the end of `Run` once the caller's context has ended.
mod Tests
use nine_core.Common.{
  ℕ, zero, suc, List, [], ◌∷◌, ◌++◌, Option, none, some, Bool, true, false, Bool-cases,
  Option-cases, ◌≡◌, refl, ◌⊎◌, inl, inr, ℤ,
}
use nine_core.Kafka.{Record}
use nine_core.Errors.{GoError}
use nine_core.Pipeline.{Outcome}
use nine_core.Consumer.{
  ask, note, ripe, hold, one, judge, look, next, process_from, process, Verdict, passed_over,
  held_back, accounted, left, stopped_by, commit, conclude, batch_body, batch,
}
use nine_core.Consumer.Look.{look_cases}
use nine_core.Consumer.Frame.{Frame, one-Rel, ripe-Rel, look-Rel, commit-Rel}
use nine_core.Consumer.Frame.Poll.{resume_ripe-Rel, poll_deadline-Rel, fetch-Rel}
use nine_core.Consumer.Run.{
  resume_ripe, poll_deadline, deadline_passed, fetch, after_poll, round, run,
}
use nine_core.Consumer.Setup.{Config, World, Machine, Call, Fetches}

-- A context that has ended stays so, whatever is called.
pub record Ending {T : Type 0} (w : World T) : Type 1 where
  pub HasEnded : w.State → Type 0
  pub over : (s : w.State) → HasEnded s → (w.cancelled s).0 ≡ true
  pub handle_keeps : (m : T) (s : w.State) → HasEnded s → HasEnded (w.handle m s).1
  pub sink_keeps :
      (send : Record → Outcome → Option GoError → w.State → Option GoError × w.State)
      → w.sink ≡ some send
      → (r : Record) (o : Outcome) (e : Option GoError) (s : w.State) → HasEnded s
      → HasEnded (send r o e s).1
  pub hook_keeps :
      (hook : List Record → w.State → Option GoError × w.State)
      → w.hook ≡ some hook
      → (rs : List Record) (s : w.State) → HasEnded s
      → HasEnded (hook rs s).1
  pub now_keeps : (s : w.State) → HasEnded s → HasEnded (w.now s).1
  pub cancelled_keeps : (s : w.State) → HasEnded s → HasEnded (w.cancelled s).1
  pub poll_keeps : (n : ℤ) (d : Option ℕ) (s : w.State) → HasEnded s → HasEnded (w.poll n d s).1
  pub commit_keeps :
      (rs : List Record) (s : w.State) → HasEnded s → HasEnded (w.commit_records rs s).1

module _ {T : Type 0} (w : World T) (cfg : Config) (x : Ending w) where
  unfoldable pub ending : Frame w cfg
  ending = record {
    Rel = λ s s'. x.HasEnded s.world → x.HasEnded s'.world;
    Okay = λ c. Unit {0};
    For = λ r. Unit {0};
    same = λ s h. h;
    joins = λ a b c f g h. g (f h);
    notes = λ c s o h. h;
    handles = λ r m s u e. x.handle_keeps m s.world;
    sends = λ send q r o e s u. x.sink_keeps send q r o e s.world;
    asks_now = λ s. x.now_keeps s.world;
    asks_cancelled = λ s. x.cancelled_keeps s.world;
    Polls = Unit {0};
    polls = λ u n d s. x.poll_keeps n d s.world;
    commits = λ rs s. x.commit_keeps rs s.world;
    hooks = λ hook q rs s. x.hook_keeps hook q rs s.world;
  }

  abbrev Ended : Machine w.State → Type 0
  Ended s = x.HasEnded s.world

  judge-left :
      (e : Option GoError) (s : Machine w.State)
      → Ended s
      → (y : GoError) → (judge w cfg e s).0 ≡ stopped_by y
      → ⊥
  unfolding judge
  judge-left none s h y q = cc
  judge-left (some e) s h y q = cc (rw (x.over s.world h) at q)

  -- Under a context that has ended, no record stops the consumer.
  look-unstopped :
      (held : List ℕ) (r : Record) (s : Machine w.State)
      → Ended s
      → (y : GoError) → (look w cfg held r s).0 ≡ stopped_by y
      → ⊥
  unfolding ending
  look-unstopped held r s h =
      let s1 = (ripe w cfg r s).1 in
      look_cases w cfg (λ v t. (y : GoError) → v ≡ stopped_by y → ⊥) held r s (λ e y q. cc)
        (λ e d y q. cc)
        (λ e d.
          judge-left (one w cfg r s1).0 (one w cfg r s1).1
            (one-Rel ending r s1 (tt, λ o. tt, λ o e. tt) (ripe-Rel ending r s h)))

  pub look-Ended :
      (held : List ℕ) (r : Record) (s : Machine w.State) → Ended s → Ended (look w cfg held r s).1
  unfolding ending
  look-Ended held r s h = look-Rel ending held r s (tt, λ o. tt, λ o e. tt) tt tt (λ t ws k. k) h

  next-unstopped :
      (v : Verdict) (r : Record) (held : List ℕ) (acked : List Record)
      (loop : List ℕ
        → List Record
        → Machine w.State
        → (List Record × Option GoError) × Machine w.State)
      (s : Machine w.State)
      → Ended s
      → ((y : GoError) → v ≡ stopped_by y → ⊥)
      → ((held' : List ℕ) (acked' : List Record)
          → ((loop held' acked' s).0.1 ≡ none) × Ended (loop held' acked' s).1)
      → ((next w cfg v r held acked loop s).0.1 ≡ none) × Ended (next w cfg v r held acked loop s).1
  unfolding next
  next-unstopped passed_over r held acked loop s h n k = k held acked
  next-unstopped held_back r held acked loop s h n k = k (r.partition ∷ held) acked
  next-unstopped accounted r held acked loop s h n k = k held (acked ++ r ∷ [])
  next-unstopped left r held acked loop s h n k = (refl, h)
  next-unstopped (stopped_by e) r held acked loop s h n k = absurd (n e refl)

  process_from-unstopped :
      (rs : List Record) (held : List ℕ) (acked : List Record) (s : Machine w.State)
      → Ended s
      → ((process_from w cfg rs held acked s).0.1 ≡ none)
        × Ended (process_from w cfg rs held acked s).1
  unfolding process_from
  process_from-unstopped [] held acked s h = (refl, h)
  process_from-unstopped (r ∷ rs) held acked s h =
      let s1 = (look w cfg held r s).1 in
      let h1 = look-Ended held r s h in
      next-unstopped (look w cfg held r s).0 r held acked (process_from w cfg rs) s1 h1
        (look-unstopped held r s h) (λ held' acked'. process_from-unstopped rs held' acked' s1 h1)

  commit-Ended : (rs : List Record) (s : Machine w.State) → Ended s → Ended (commit w cfg rs s).1
  unfolding ending
  commit-Ended rs s h = commit-Rel ending rs s (λ e. tt) (λ e. tt) h

  pub fetched-Ended :
      (s : Machine w.State)
      → Ended s
      → let s1 = (resume_ripe w cfg s).1 in
        Ended (fetch w cfg (poll_deadline w cfg s1).0 (poll_deadline w cfg s1).1).1
  unfolding ending
  fetched-Ended s h =
      let s1 = (resume_ripe w cfg s).1 in
      fetch-Rel ending (poll_deadline w cfg s1).0 (poll_deadline w cfg s1).1 (λ y. tt) tt
        (poll_deadline-Rel ending s1 (resume_ripe-Rel ending s (λ qs. tt) (λ t ws k. k) h))

  -- The result is an error only of a commit.
  abbrev pub IsOfCommit : Option GoError → Type 0
  IsOfCommit none = Unit
  IsOfCommit (some e) =
      (rs : List Record) × (t : Machine w.State) × ((commit w cfg rs t).0 ≡ some e)

  batch_body-ends :
      (f : Fetches) (s : Machine w.State)
      → Ended s
      → (y : Option GoError) × ((batch_body w cfg f s).0 ≡ (true, y)) × IsOfCommit y
  unfolding batch_body process conclude
  batch_body-ends f s h = elim (Bool-cases f.closed) [
    | inl c ↦ (none, rw c refl, tt)
    | inr c ↦
        let p = process_from w cfg f.records [] [] s in
        let (unstopped, h1) = process_from-unstopped f.records [] [] s h in
        let k = commit w cfg p.0.0 p.1 in
        elim (Option-cases k.0) [
          | inl q ↦
              let over = x.over k.1.world (commit-Ended p.0.0 p.1 h1) in
              (none, rw (c, q, unstopped, over) refl, tt)
          | inr (e, q) ↦ (some e, rw (c, q) refl, (p.0.0, p.1, q))
        ]
  ]

  -- A round that a context has ended before does not go round again.
  round-ends :
      (s : Machine w.State)
      → Ended s
      → (y : Option GoError) × ((round w cfg s).0 ≡ some y) × IsOfCommit y
  unfolding round deadline_passed after_poll batch
  round-ends s h =
      let s1 = (resume_ripe w cfg s).1 in
      let d = (poll_deadline w cfg s1).0 in
      let s3 = (fetch w cfg d (poll_deadline w cfg s1).1).1 in
      let f = (fetch w cfg d (poll_deadline w cfg s1).1).0 in
      let h3 = fetched-Ended s h in
      let (y, q, c) =
        batch_body-ends f (ask w cfg w.cancelled s3).1 (x.cancelled_keeps s3.world h3) in
      (y, rw (x.over s3.world h3, q) refl, c)

  -- Once the caller's context has ended, Run returns at the end of the round it begins, whatever
  -- its records make of it: with no error, or with that of a commit.
  pub run_ends :
      (fuel : ℕ) (s : Machine w.State)
      → x.HasEnded s.world
      → (y : Option GoError) × ((run w cfg (suc fuel) s).0 ≡ some y) × IsOfCommit y
  unfolding run
  run_ends fuel s h = let (y, q, c) = round-ends s h in (y, rw (q, run) refl, c)
