-- ===== src/Consumer/Order.antt =====
-- The order of the calls around a batch: the poll, the hook, the commit, the rebalance.
use nine_core.Common.{
  List, [], ◌∷◌, ◌++◌, Option, none, some, true, false, Bool-cases, inl, inr, ◌⊎◌, ◌≡◌, ◌≢◌, refl,
  ap, ◌∙◌, arith, Option-cases,
}
use nine_core.Kafka.{Record}
use nine_core.Errors.{GoError}
use nine_core.Consumer.{process, commit_offsets, commit, batch_body, batch}
use nine_core.Consumer.Frame.{Frame, conclude-Rel}
use nine_core.Consumer.Batches.{process-Rel}
use nine_core.Consumer.Setup.{
  Config, World, Machine, Call, handled, forwarded, sought, paused, resumed, hooked, committed,
  polled, rebalance_allowed, Fetches,
}

-- Of the calls so far, those that concern a batch as a whole.
abbrev pub outer : List Call → List Call
outer [] = []
outer (handled r o ∷ t) = outer t
outer (forwarded r o e ∷ t) = outer t
outer (sought p o ∷ t) = outer t
outer (paused p ∷ t) = outer t
outer (resumed ps ∷ t) = resumed ps ∷ outer t
outer (hooked rs e ∷ t) = hooked rs e ∷ outer t
outer (committed rs e ∷ t) = committed rs e ∷ outer t
outer (polled f ∷ t) = polled f ∷ outer t
outer (rebalance_allowed ∷ t) = rebalance_allowed ∷ outer t

-- What the commit of some records leaves in the trace, the latest call first: nothing for no
-- records; without a hook their commit; with one, its refusal alone, or its consent and the commit.
pub data CommitCalls {S : Type 0} (hook : Option (List Record → S → Option GoError × S))
    (acked : List Record) : List Call → Type 0 where
  nothing : {cs : List Call} → acked ≡ [] → cs ≡ [] → CommitCalls hook acked cs
  without_hook :
      {cs : List Call} (e : Option GoError)
      → acked ≢ []
      → hook ≡ none
      → cs ≡ committed acked e ∷ []
      → CommitCalls hook acked cs
  refused :
      {cs : List Call} (ask : List Record → S → Option GoError × S) (e : GoError)
      → acked ≢ []
      → hook ≡ some ask
      → cs ≡ hooked acked (some e) ∷ []
      → CommitCalls hook acked cs
  agreed :
      {cs : List Call} (ask : List Record → S → Option GoError × S) (e : Option GoError)
      → acked ≢ []
      → hook ≡ some ask
      → cs ≡ committed acked e ∷ hooked acked none ∷ []
      → CommitCalls hook acked cs

module _ {T : Type 0} (w : World T) (cfg : Config) where
  -- A call that concerns a single record.
  abbrev IsInner : Call → Type 0
  IsInner c = (t : List Call) → outer (c ∷ t) ≡ outer t

  abbrev inward : Frame w cfg
  inward = record {
    Rel = λ s s'. outer s'.trace ≡ outer s.trace;
    Okay = IsInner;
    For = λ r. Unit {0};
    same = λ s. refl;
    joins = λ a b c x y. y ∙ x;
    notes = λ c s inner. inner s.trace;
    handles = λ r m s u e. refl;
    sends = λ send q r o e s u. refl;
    asks_now = λ s. refl;
    asks_cancelled = λ s. refl;
    Polls = Unit {0};
    polls = λ u n d s. refl;
    commits = λ rs s. refl;
    hooks = λ hook q rs s. refl;
  }

  process-outer :
      (rs : List Record) (s : Machine w.State) → outer (process w cfg rs s).1.trace ≡ outer s.trace
  process-outer =
      process-Rel inward (λ r. (tt, λ o t. refl, λ o e t. refl)) (λ r t. refl) (λ r t. refl)
        (λ t ws. refl)

  commit_offsets-outer :
      (acked : List Record) (s : Machine w.State)
      → outer (commit_offsets w cfg acked s).1.trace
        ≡ committed acked (w.commit_records acked s.world).0 ∷ outer s.trace
  unfolding commit_offsets
  commit_offsets-outer acked s = ground arith

  hooked-CommitCalls :
      (r : Record) (rs : List Record) (s : Machine w.State)
      (hook : List Record → w.State → Option GoError × w.State)
      → w.hook ≡ some hook
      → (cs : List Call) × CommitCalls w.hook (r ∷ rs) cs
        × (outer (commit w cfg (r ∷ rs) s).1.trace ≡ cs ++ outer s.trace)
  unfolding commit commit_offsets
  hooked-CommitCalls r rs s hook e = elim (Option-cases (hook (r ∷ rs) s.world).0) [
    | inl k ↦
        let acked = r ∷ rs in
        let s' = record s { trace = hooked acked none ∷ s.trace; world = (hook acked s.world).1 } in
        (
          committed acked (w.commit_records acked s'.world).0 ∷ hooked acked none ∷ [],
          agreed hook _ (λ z. cc) e refl,
          ground arith,
        )
    | inr (x, k) ↦ (hooked (r ∷ rs) (some x) ∷ [], refused hook x (λ z. cc) e refl, ground arith)
  ]

  -- The commit calls nothing for no records; else it asks the hook, if there is one, and commits
  -- exactly these records unless the hook refused.
  commit-CommitCalls :
      (acked : List Record) (s : Machine w.State)
      → (cs : List Call) × CommitCalls w.hook acked cs
        × (outer (commit w cfg acked s).1.trace ≡ cs ++ outer s.trace)
  unfolding commit commit_offsets
  commit-CommitCalls [] s = ([], nothing refl refl, refl)
  commit-CommitCalls (r ∷ rs) s = elim (Option-cases w.hook) [
    | inl e ↦ (
      committed (r ∷ rs) (w.commit_records (r ∷ rs) s.world).0 ∷ [],
      without_hook _ (λ z. cc) e refl,
      ground arith,
    )
    | inr (hook, e) ↦ hooked-CommitCalls r rs s hook e
  ]

  -- The calls that a batch leaves, those for single records apart: first those of the commit of the
  -- records that `process` returned, which asks the hook if there is one and commits exactly these
  -- records unless it refuses, and nothing at all if there are none; then, whatever was answered,
  -- the one that lets a rebalance through. A batch of a closed client leaves that one alone. A panic
  -- is not considered.
  pub batch-CommitCalls :
      (f : Fetches) (s : Machine w.State)
      → (cs : List Call) × ((f.closed ≡ true) × (cs ≡ [])
          ⊎ (f.closed ≡ false) × CommitCalls w.hook (process w cfg f.records s).0.0 cs)
        × (outer (batch w cfg f s).1.trace ≡ rebalance_allowed ∷ cs ++ outer s.trace)
  unfolding batch batch_body
  batch-CommitCalls f s = elim (Bool-cases f.closed) [
    | inl e ↦ ([], inl (e, refl), rw e)
    | inr e ↦
        let (p, s1) = process w cfg f.records s in
        let (cs, calls, q) = commit-CommitCalls p.0 s1 in
        let (c, s2) = commit w cfg p.0 s1 in
        (
          cs,
          inr (e, calls),
          rw e (
              ap (λ t. rebalance_allowed ∷ t)
                (conclude-Rel inward c p.1 s2 ∙ q ∙ ap (◌++◌ cs) (process-outer f.records s))),
        )
  ]
