-- ===== src/Consumer/Promise.antt =====
-- internal/consumer/consumer.go: what a commit promises, over the whole loop of `Run`.
pub mod Settles
pub mod Loop
use nine_core.Common.{
  ℕ, zero, suc, List, [], ◌∷◌, ◌++◌, Option, none, some, Bool, true, false, Bool-cases, inl, inr,
  ◌⊎◌, ◌≡◌, refl, sym, subst, ap, Option-cases, Occurs, All, All-append, All-map, natural, ◌==◌, ℤ,
}
use nine_core.Kafka.{Record}
use nine_core.Errors.{GoError}
use nine_core.Pipeline.{Outcome, unknown, done, retry, poison, fatal, other}
use nine_core.Consumer.{
  ask, note, ripe, hold, forward, answer, settle, one, judge, look, next, process_from, process,
  Verdict, passed_over, held_back, accounted, left, stopped_by, commit_offsets, commit, conclude,
  batch_body, batch,
}
use nine_core.Consumer.Frame.{Frame, look-Rel}
use nine_core.Consumer.Run.{
  note_resumed, resume_ripe, poll_deadline, poll_context_ended, deadline_passed, fetch, after_poll,
  round, run, ripened, unripe, soonest,
}
use nine_core.Consumer.Setup.{
  Config, Decoded, decoded, undecodable, World, Machine, Call, handled, forwarded, sought, paused,
  resumed, hooked, polled, rebalance_allowed, committed, Fetches,
}

-- What the world does for a record and never takes back: a Done of the handler and an
-- acknowledgement of the sink bring it about.
pub record Promise {T : Type 0} (w : World T) : Type 1 where
  pub Holds : w.State → Record → Type 0
  pub by_handler :
      (r : Record) (m : T) (s : w.State)
      → w.decode r.key r.value ≡ decoded m
      → (w.handle m s).0.0 ≡ done
      → Holds (w.handle m s).1 r
  pub by_sink :
      (send : Record → Outcome → Option GoError → w.State → Option GoError × w.State)
      → w.sink ≡ some send
      → (r : Record) (o : Outcome) (e : Option GoError) (s : w.State) → (o ≡ retry) ⊎ (o ≡ poison)
      → (send r o e s).0 ≡ none
      → Holds (send r o e s).1 r
  pub handle_keeps : (m : T) (s : w.State) (r : Record) → Holds s r → Holds (w.handle m s).1 r
  pub sink_keeps :
      (send : Record → Outcome → Option GoError → w.State → Option GoError × w.State)
      → w.sink ≡ some send
      → (x : Record) (o : Outcome) (e : Option GoError) (s : w.State) (r : Record) → Holds s r
      → Holds (send x o e s).1 r
  pub hook_keeps :
      (hook : List Record → w.State → Option GoError × w.State)
      → w.hook ≡ some hook
      → (rs : List Record) (s : w.State) (r : Record) → Holds s r
      → Holds (hook rs s).1 r
  pub now_keeps : (s : w.State) (r : Record) → Holds s r → Holds (w.now s).1 r
  pub cancelled_keeps : (s : w.State) (r : Record) → Holds s r → Holds (w.cancelled s).1 r
  pub poll_keeps :
      (n : ℤ) (d : Option ℕ) (s : w.State) (r : Record) → Holds s r → Holds (w.poll n d s).1 r
  pub commit_keeps :
      (rs : List Record) (s : w.State) (r : Record) → Holds s r → Holds (w.commit_records rs s).1 r

module _ {T : Type 0} (w : World T) (cfg : Config) (p : Promise w) where
  -- Every record of every commit so far has what was promised.
  abbrev pub IsKept : Machine w.State → Type 0
  IsKept s =
      (rs : List Record) (e : Option GoError)
      → Occurs (committed rs e) s.trace
      → All (p.Holds s.world) rs

  -- What holds stays, and nothing is committed.
  pub record Quiet (s s' : Machine w.State) : Type 0 where
    pub holds : (r : Record) → p.Holds s.world r → p.Holds s'.world r
    pub commits :
        (rs : List Record) (e : Option GoError)
        → Occurs (committed rs e) s'.trace
        → Occurs (committed rs e) s.trace

  pub still : {s : Machine w.State} → Quiet s s
  still = record { holds = λ r h. h; commits = λ rs e o. o }

  pub Quiet-trans : {a b c : Machine w.State} → Quiet a b → Quiet b c → Quiet a c
  Quiet-trans f g = record {
    holds = λ r x. g.holds r (f.holds r x);
    commits = λ rs e x. f.commits rs e (g.commits rs e x);
  }

  pub Quiet-IsKept : {s s' : Machine w.State} → Quiet s s' → IsKept s → IsKept s'
  Quiet-IsKept q k rs e x = All-map _ _ q.holds rs (k rs e (q.commits rs e x))

  -- A call of the world.
  pub asked-Quiet :
      {A : Type 0} (f : w.State → A × w.State) (s : Machine w.State)
      → ((t : w.State) (r : Record) → p.Holds t r → p.Holds (f t).1 r)
      → Quiet s (ask w cfg f s).1
  asked-Quiet f s keeps = record { holds = keeps s.world; commits = λ rs e o. o }

  pub waits-Quiet : {s : Machine w.State} {ws : List (ℕ × ℕ)} → Quiet s (record s { waiting = ws })
  waits-Quiet = record { holds = λ r h. h; commits = λ rs e o. o }

  abbrev pub is_commit : Call → Bool
  is_commit (committed rs e) = true
  is_commit _ = false

  -- A call that is no commit.
  pub noted-Quiet :
      (c : Call) (s : Machine w.State) → is_commit c ≡ false → Quiet s (note w cfg c s).1
  noted-Quiet c s none_such = record {
    holds = λ r h. h;
    commits = λ rs e o. elim o [
      | inl q ↦ let bad : true ≡ false = subst (λ x. is_commit x ≡ false) (sym q) none_such in cc
      | inr t ↦ t
    ];
  }

  -- The frame of what is quiet.
  abbrev pub quiet : Frame w cfg
  quiet = record {
    Rel = Quiet;
    Okay = λ c. is_commit c ≡ false;
    For = λ r. Unit {0};
    same = λ s. still;
    joins = λ a b c x y. Quiet-trans x y;
    notes = noted-Quiet;
    handles = λ r m s u e. asked-Quiet (w.handle m) s (p.handle_keeps m);
    sends = λ send q r o e s u. asked-Quiet (send r o e) s (p.sink_keeps send q r o e);
    asks_now = λ s. asked-Quiet w.now s p.now_keeps;
    asks_cancelled = λ s. asked-Quiet w.cancelled s p.cancelled_keeps;
    Polls = Unit {0};
    polls = λ u n d s. asked-Quiet (w.poll n d) s (p.poll_keeps n d);
    commits = λ rs s. asked-Quiet (w.commit_records rs) s (p.commit_keeps rs);
    hooks = λ hook q rs s. asked-Quiet (hook rs) s (p.hook_keeps hook q rs);
  }

  pub look-Quiet :
      (held : List ℕ) (r : Record) (s : Machine w.State) → Quiet s (look w cfg held r s).1
  look-Quiet held r s =
      look-Rel quiet held r s (tt, λ o. refl, λ o e. refl) refl refl (λ t ws. waits-Quiet)
