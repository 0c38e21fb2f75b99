-- ===== src/Consumer/Pauses/Steps.antt =====
-- internal/consumer/consumer.go: what the steps of the consumer do to the paused partitions.
use nine_core.Common.{
  ℕ, List, [], ◌∷◌, Bool, true, false, not, ◌&&◌, ◌||◌, ◌==◌, ◌≡◌, refl, sym, subst, ◌∙◌, All,
  All-map,
}
use nine_core.Kafka.{Record}
use nine_core.Consumer.{ask, ripe, hold, one, look}
use nine_core.Consumer.Look.{look_cases}
use nine_core.Consumer.Batches.{after_poll-keeps_if}
use nine_core.Consumer.Frame.{Frame, one-Rel, judge-Rel, ripe-Rel}
use nine_core.Consumer.Frame.Poll.{poll_deadline-Rel, deadline_passed-Rel, fetch-Rel}
use nine_core.Consumer.Run.{
  note_resumed, resume_ripe, deadline_passed, fetch, after_poll, ripened, unripe,
}
use nine_core.Consumer.Setup.{
  Config, World, Machine, Call, handled, forwarded, sought, paused, resumed, hooked, committed,
  polled, rebalance_allowed, contains, Fetches,
}
use nine_core.Consumer.Pauses.{
  waits_for, paused_now, forgotten, before_poll, deadline, fetches, round_during, Step, rounds,
  revokes, Reach, here, later,
}
use nine_core.Consumer.Pauses.Table.{
  IsUnique, waits_for-put, put-IsUnique, waits_for-unripe, unripe-IsUnique,
}

-- A call that pauses or resumes nothing.
abbrev is_pause : Call → Bool
is_pause (paused p) = true
is_pause (resumed ps) = true
is_pause _ = false

paused_now-other :
    (c : Call) (t : List Call) (p : ℕ) → is_pause c ≡ false → paused_now (c ∷ t) p ≡ paused_now t p
unfolding paused_now
paused_now-other (handled r o) t p h = refl
paused_now-other (forwarded r o e) t p h = refl
paused_now-other (sought q o) t p h = refl
paused_now-other (paused q) t p h = cc
paused_now-other (resumed qs) t p h = cc
paused_now-other (hooked rs e) t p h = refl
paused_now-other (committed rs e) t p h = refl
paused_now-other (polled x) t p h = refl
paused_now-other rebalance_allowed t p h = refl

module _ {T : Type 0} (w : World T) (cfg : Config) where
  -- The same entries, and the same partitions paused.
  abbrev pub Holds : Machine w.State → Machine w.State → Type 0
  Holds s s' = (s'.waiting ≡ s.waiting) × ((p : ℕ) → paused_now s'.trace p ≡ paused_now s.trace p)

  abbrev holding : Frame w cfg
  holding = record {
    Rel = Holds;
    Okay = λ c. is_pause c ≡ false;
    For = λ r. Unit {0};
    same = λ s. (refl, λ p. refl);
    joins = λ a b c x y. (y.0 ∙ x.0, λ p. y.1 p ∙ x.1 p);
    notes = λ c s h. (refl, λ p. paused_now-other c s.trace p h);
    handles = λ r m s u e. (refl, λ p. refl);
    sends = λ send q r o e s u. (refl, λ p. refl);
    asks_now = λ s. (refl, λ p. refl);
    asks_cancelled = λ s. (refl, λ p. refl);
    Polls = Unit {0};
    polls = λ u n d s. (refl, λ p. refl);
    commits = λ rs s. (refl, λ p. refl);
    hooks = λ hook q rs s. (refl, λ p. refl);
  }

  -- What a predicate on the consumer needs for each step to keep it: it looks at the entries and
  -- the paused partitions only, and stands a hold of the records that are fetched.
  module _ (P : Machine w.State → Type 0) (Ok : Record → Type 0)
      (framed : (a b : Machine w.State) → Holds a b → P a → P b)
      (held : (r : Record) (at : ℕ) (s : Machine w.State)
        → Ok r
        → P s
        → P (hold w cfg r at s).1) where
    look-keeps :
        (hs : List ℕ) (r : Record) (s : Machine w.State) → Ok r → P s → P (look w cfg hs r s).1
    look-keeps hs r s o h =
        let s1 = (ripe w cfg r s).1 in
        let s2 = (one w cfg r s1).1 in
        let h1 = framed s s1 (ripe-Rel holding r s) h in
        look_cases w cfg (λ v t. P t) hs r s (λ e. h) (λ e d. held r _ s1 o h1)
          (λ e d.
            framed s2 _ (judge-Rel holding (one w cfg r s1).0 s2)
              (framed s1 s2 (one-Rel holding r s1 (tt, λ x. refl, λ x y. refl)) h1))

    after_poll-keeps :
        (x : Fetches) (b : Bool) (s : Machine w.State)
        → All Ok x.records
        → P s
        → P (after_poll w cfg x b s).1
    after_poll-keeps =
        after_poll-keeps_if holding P Ok framed look-keeps (λ rs e. refl) (λ rs e. refl) refl

    -- The same for a whole step, if a resumption and a callback keep it too.
    module _ (May : List ℕ → Type 0)
        (resumes : (s : Machine w.State) → P s → P (resume_ripe w cfg s).1)
        (forgets : (ps : List ℕ) (s : Machine w.State) → May ps → P s → P (forgotten w cfg ps s))
        (okay : (r : Record) (s : Machine w.State)
          → P s
          → paused_now s.trace r.partition ≡ false
          → Ok r) where
      round_during-keeps :
          (ps : List ℕ) (s : Machine w.State)
          → May ps
          → All
              (λ r. paused_now (before_poll w cfg s).trace r.partition ≡ false)
              (fetches w cfg s).records
          → P s
          → P (round_during w cfg ps s).1
      unfolding round_during
      round_during-keeps ps s m un h =
          let s1 = (resume_ripe w cfg s).1 in
          let s2 = before_poll w cfg s in
          let s3 = (fetch w cfg (deadline w cfg s) s2).1 in
          let s4 = forgotten w cfg ps s3 in
          let passed = deadline_passed w cfg (deadline w cfg s) s4 in
          let h2 : P s2 = framed s1 s2 (poll_deadline-Rel holding s1) (resumes s h) in
          let h3 : P s3 =
            framed s2 s3 (fetch-Rel holding (deadline w cfg s) s2 (λ x. refl) tt) h2 in
          let h5 : P passed.1 =
            framed s4 passed.1 (deadline_passed-Rel holding (deadline w cfg s) s4)
              (forgets ps s3 m h3) in
          after_poll-keeps (fetches w cfg s) passed.0 passed.1
            (All-map _ _ (λ r u. okay r s2 h2 u) (fetches w cfg s).records un) h5

      Step-keeps : (s t : Machine w.State) → Step w cfg May s t → P s → P t
      Step-keeps s t (rounds ps m un e) h = subst P (sym e) (round_during-keeps ps s m un h)
      Step-keeps s t (revokes ps m e) h = subst P (sym e) (forgets ps s m h)

      pub Reach-keeps :
          (s : Machine w.State) {t : Machine w.State} → Reach w cfg May s t → P s → P t
      Reach-keeps s here h = h
      Reach-keeps s (later r st) h = Step-keeps _ _ st (Reach-keeps s r h)

  -- What a hold, a resumption and a callback do to one partition.
  pub hold-waits :
      (r : Record) (at : ℕ) (s : Machine w.State) (p : ℕ)
      → (waits_for (hold w cfg r at s).1.waiting p ≡ (r.partition == p || waits_for s.waiting p))
        × (paused_now (hold w cfg r at s).1.trace p ≡ (r.partition == p || paused_now s.trace p))
  unfolding hold paused_now
  hold-waits r at s p = (waits_for-put r.partition at p s.waiting, refl)

  pub hold-IsUnique :
      (r : Record) (at : ℕ) (s : Machine w.State)
      → IsUnique s.waiting
      → IsUnique (hold w cfg r at s).1.waiting
  unfolding hold
  hold-IsUnique r at s u = put-IsUnique r.partition at s.waiting u

  note_resumed-paused :
      (ps : List ℕ) (s : Machine w.State) (p : ℕ)
      → (paused_now (note_resumed w cfg ps s).1.trace p
          ≡ (not (contains ps p) && paused_now s.trace p))
        × ((note_resumed w cfg ps s).1.waiting ≡ s.waiting)
  unfolding paused_now contains
  note_resumed-paused [] s p = (refl, refl)
  note_resumed-paused (q ∷ qs) s p = (refl, refl)

  -- The partitions that a resumption resumes.
  abbrev pub ready : Machine w.State → List ℕ
  ready s = ripened (w.now s.world).0 s.waiting

  pub resume_ripe-waits :
      (s : Machine w.State) (p : ℕ)
      → IsUnique s.waiting
      → (waits_for (resume_ripe w cfg s).1.waiting p
          ≡ (not (contains (ready s) p) && waits_for s.waiting p))
        × (paused_now (resume_ripe w cfg s).1.trace p
            ≡ (not (contains (ready s) p) && paused_now s.trace p))
        × IsUnique (resume_ripe w cfg s).1.waiting
  unfolding resume_ripe
  resume_ripe-waits s p u =
      let at = (w.now s.world).0 in
      let s1 = record (ask w cfg w.now s).1 { waiting = unripe at s.waiting } in
      let (pauses, entries) = note_resumed-paused (ready s) s1 p in
      (
        rw entries (waits_for-unripe at p s.waiting u),
        pauses,
        rw entries (unripe-IsUnique at s.waiting u),
      )
