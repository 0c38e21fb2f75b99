-- ===== src/Consumer/Log/Steps.antt =====
-- internal/consumer/consumer.go: what the steps of the consumer do to the positions of the client and
-- to the commits of the trace.
use nine_core.Common.{
  ℕ, ◌≤◌, List, [], ◌∷◌, ◌++◌, Option, none, false, ◌≡◌, refl, ◌∙◌, arith, Option-cases, inl, inr,
  Occurs-take,
}
use nine_core.Kafka.{Record}
use nine_core.Errors.{GoError}
use nine_core.Consumer.{ask, note, commit_offsets, commit}
use nine_core.Consumer.Setup.{
  Config, World, Machine, Call, hooked, committed, handled, forwarded, sought, paused, resumed,
  polled, rebalance_allowed,
}
use nine_core.Consumer.Frame.{Frame}
use nine_core.Consumer.Log.{Holds, Client, Context, is_commit, committed_records, Covers, IsGapless}

-- A call that is no commit leaves both as they are.
pub committed_records-other :
    (c : Call) (t : List Call)
    → is_commit c ≡ false
    → committed_records (c ∷ t) ≡ committed_records t
committed_records-other (committed rs e) t h = cc
committed_records-other _ t h = refl

pub IsGapless-other :
    (log : ℕ → List Record) (others : ℕ → ℕ) (c : Call) (t : List Call)
    → is_commit c ≡ false
    → IsGapless log others t
    → IsGapless log others (c ∷ t)
IsGapless-other log others (committed rs e) t h g = cc
IsGapless-other log others _ t h g = g

-- The more the other members have committed, the less is a gap.
module _ (log : ℕ → List Record) (k k' : ℕ → ℕ) (le : (p : ℕ) → k p ≤ k' p) where
  pub Covers-more : (rs before : List Record) → Covers log k rs before → Covers log k' rs before
  Covers-more rs before h x y ox oy l = elim (h x y ox oy l) [
    | inl o ↦ inl o
    | inr o ↦
        inr (Occurs-take y (k x.partition) (k' x.partition) (log x.partition) (le x.partition) o)
  ]

  IsGapless-more : (t : List Call) → IsGapless log k t → IsGapless log k' t
  IsGapless-more [] g = tt
  IsGapless-more (committed rs e ∷ t) (h, g) =
      (Covers-more rs (committed_records t) h, IsGapless-more t g)
  IsGapless-more (handled r o ∷ t) g = IsGapless-more t g
  IsGapless-more (forwarded r o e ∷ t) g = IsGapless-more t g
  IsGapless-more (sought p o ∷ t) g = IsGapless-more t g
  IsGapless-more (paused p ∷ t) g = IsGapless-more t g
  IsGapless-more (resumed ps ∷ t) g = IsGapless-more t g
  IsGapless-more (hooked rs e ∷ t) g = IsGapless-more t g
  IsGapless-more (polled f ∷ t) g = IsGapless-more t g
  IsGapless-more (rebalance_allowed ∷ t) g = IsGapless-more t g

module _ {T : Type 0} (w : World T) (cfg : Config) (c : Client w) (x : Context w) where
  -- No position moves on, what the others committed does not go back, and a context that has ended
  -- stays so.
  abbrev pub Stays : Machine w.State → Machine w.State → Type 0
  Stays s s' =
      ((p : ℕ) → Holds c.position c.others s.world s'.world p)
      × (x.ending.HasEnded s.world → x.ending.HasEnded s'.world)

  abbrev pub staying : Frame w cfg
  staying = record {
    Rel = Stays;
    Okay = λ k. Unit {0};
    For = λ r. Unit {0};
    same = λ s. (λ p. (omega arith, omega arith), λ h. h);
    joins = λ a b d f g. (
      λ p. (omega (arith, (f.0 p).0, (g.0 p).0), omega (arith, (f.0 p).1, (g.0 p).1)),
      λ h. g.1 (f.1 h),
    );
    notes = λ k s o. (λ p. (omega arith, omega arith), λ h. h);
    handles = λ r m s u e. (c.handle_keeps m s.world, x.ending.handle_keeps m s.world);
    sends = λ send q r o e s u.
        (c.sink_keeps send q r o e s.world, x.ending.sink_keeps send q r o e s.world);
    asks_now = λ s. (c.now_keeps s.world, x.ending.now_keeps s.world);
    asks_cancelled = λ s. (c.cancelled_keeps s.world, x.ending.cancelled_keeps s.world);
    Polls = ⊥;
    polls = λ u n d s. absurd u;
    commits = λ rs s. (c.commit_keeps rs s.world, x.ending.commit_keeps rs s.world);
    hooks = λ hook q rs s. (c.hook_keeps hook q rs s.world, x.ending.hook_keeps hook q rs s.world);
  }

  -- The trace of a session leaves no gap, by what the others have committed.
  abbrev pub IsClosed : Machine w.State → Type 0
  IsClosed s = IsGapless c.log (c.others s.world) s.trace

  -- Nothing is committed.
  abbrev pub Silent : Machine w.State → Machine w.State → Type 0
  Silent s s' =
      (committed_records s'.trace ≡ committed_records s.trace)
      × ((p : ℕ) → c.others s.world p ≤ c.others s'.world p)
      × (IsClosed s → IsClosed s')

  pub quiet :
      (s : Machine w.State) (u : w.State)
      → ((p : ℕ) → c.others s.world p ≤ c.others u p)
      → Silent s (record s { world = u })
  quiet s u g = (refl, g, IsGapless-more c.log (c.others s.world) (c.others u) g s.trace)

  abbrev pub silence : Frame w cfg
  silence = record {
    Rel = Silent;
    Okay = λ k. is_commit k ≡ false;
    For = λ r. Unit {0};
    same = λ s. (refl, λ p. omega arith, λ h. h);
    joins = λ a b d f g. (g.0 ∙ f.0, λ p. omega (arith, f.1 p, g.1 p), λ h. g.2 (f.2 h));
    notes = λ k s o. (
      committed_records-other k s.trace o,
      λ p. omega arith,
      IsGapless-other c.log (c.others s.world) k s.trace o,
    );
    handles = λ r m s u e. quiet s _ (λ p. (c.handle_keeps m s.world p).1);
    sends = λ send q r o e s u. quiet s _ (λ p. (c.sink_keeps send q r o e s.world p).1);
    asks_now = λ s. quiet s _ (λ p. (c.now_keeps s.world p).1);
    asks_cancelled = λ s. quiet s _ (λ p. (c.cancelled_keeps s.world p).1);
    Polls = Unit {0};
    polls = λ u n d s. quiet s _ (c.poll_grows n d s.world);
    commits = λ rs s. quiet s _ (λ p. (c.commit_keeps rs s.world p).1);
    hooks = λ hook q rs s. quiet s _ (λ p. (c.hook_keeps hook q rs s.world p).1);
  }

  -- The records lie behind no gap, by what the others have committed.
  abbrev CoversIn : List Record → Machine w.State → Type 0
  CoversIn rs s = Covers c.log (c.others s.world) rs (committed_records s.trace)

  -- What a commit leaves: no gap, and its records committed unless it failed.
  abbrev pub Commits : List Record → Machine w.State → Option GoError × Machine w.State → Type 0
  Commits rs s o =
      IsClosed o.1 × (o.0 ≡ none → committed_records o.1.trace ≡ rs ++ committed_records s.trace)

  commit_offsets-Commits :
      (rs : List Record) (s : Machine w.State)
      → IsClosed s
      → CoversIn rs s
      → Commits rs s (commit_offsets w cfg rs s)
  unfolding commit_offsets
  commit_offsets-Commits rs s g k =
      let u = (w.commit_records rs s.world).1 in
      let more = λ (p : ℕ). (c.commit_keeps rs s.world p).1 in
      let g' = IsGapless-more c.log (c.others s.world) (c.others u) more s.trace g in
      let k' =
        Covers-more c.log (c.others s.world) (c.others u) more rs (committed_records s.trace) k in
      elim (Option-cases (w.commit_records rs s.world).0) [
        | inl q ↦ rw q ((k', g'), λ e. refl)
        | inr (e, q) ↦ rw q ((k', g'), λ z. cc)
      ]

  pub commit-Commits :
      (rs : List Record) (s : Machine w.State)
      → IsClosed s
      → CoversIn rs s
      → Commits rs s (commit w cfg rs s)
  unfolding commit commit_offsets
  commit-Commits [] s g k = (g, λ e. refl)
  commit-Commits (r ∷ rs) s g k = elim (Option-cases w.hook) [
    | inl q ↦ rw q (commit_offsets-Commits (r ∷ rs) s g k)
    | inr (hook, q) ↦
        let u = (hook (r ∷ rs) s.world).1 in
        let more = λ (p : ℕ). (c.hook_keeps hook q (r ∷ rs) s.world p).1 in
        let g' = IsGapless-more c.log (c.others s.world) (c.others u) more s.trace g in
        let k' =
          Covers-more c.log (c.others s.world) (c.others u) more (r ∷ rs)
            (committed_records s.trace) k in
        elim (Option-cases (hook (r ∷ rs) s.world).0) [
          | inl e ↦
              let s1 = (note w cfg (hooked (r ∷ rs) none) (ask w cfg (hook (r ∷ rs)) s).1).1 in
              rw (q, e) (commit_offsets-Commits (r ∷ rs) s1 g' k')
          | inr (y, e) ↦ rw (q, e) (g', λ z. cc)
        ]
  ]
