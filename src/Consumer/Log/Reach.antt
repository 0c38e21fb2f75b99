-- ===== src/Consumer/Log/Reach.antt =====
-- internal/consumer/consumer.go: what a batch commits of the log.
use nine_core.Common.{
  ℕ, ◌+◌, ◌≤◌, List, [], ◌++◌, Option, none, some, Bool, false, Bool-cases, inl, inr, ◌⊎◌, ◌≡◌,
  refl, ap, ◌∙◌, arith, natural, Option-cases, Occurs, Occurs-append_left, Occurs-append_right,
  Occurs-take, Occurs-take_cases, take, drop,
}
use nine_core.Kafka.{Record}
use nine_core.Errors.{GoError}
use nine_core.Consumer.{ask, process, commit, conclude, batch_body, batch}
use nine_core.Consumer.Setup.{Config, World, Machine, Fetches}
use nine_core.Consumer.Prefix.{on, process-IsPrefixOf}
use nine_core.Consumer.Offsets.{Occurs-on, on-Occurs}
use nine_core.Consumer.Frame.{commit-Rel}
use nine_core.Consumer.Batches.{process-Rel}
use nine_core.Consumer.Log.{Holds, IsAmong, Client, Context, committed_records, Covers}
use nine_core.Consumer.Log.Steps.{
  IsClosed, Covers-more, Stays, staying, Silent, silence, Commits, commit-Commits,
}
use nine_core.Consumer.Log.Batch.{covered, process-Finishes}

module _ {T : Type 0} (w : World T) (cfg : Config) (c : Client w) (x : Context w) where
  -- A record of partition `p` was committed, by this member or by the others.
  abbrev IsPassed : Machine w.State → ℕ → Record → Type 0
  IsPassed s p y = Occurs y (committed_records s.trace) ⊎ IsAmong (c.others s.world p) (c.log p) y

  -- Everything in front of the client's positions has been committed.
  abbrev pub Reaches : Machine w.State → Type 0
  Reaches s = (p : ℕ) (y : Record) → IsAmong (c.position s.world p) (c.log p) y → IsPassed s p y

  -- A consumer that holds no record, has left no gap and committed what it was past.
  abbrev pub IsCaughtUp : Machine w.State → Type 0
  IsCaughtUp s = (s.waiting ≡ []) × IsClosed w cfg c x s × Reaches s

  -- What was committed stays so.
  pub IsPassed-later :
      (s t : Machine w.State)
      → committed_records t.trace ≡ committed_records s.trace
      → ((p : ℕ) → c.others s.world p ≤ c.others t.world p)
      → (p : ℕ) (y : Record) → IsPassed s p y
      → IsPassed t p y
  IsPassed-later s t same le p y (inl o) = inl (rw same o)
  IsPassed-later s t same le p y (inr o) =
      inr (Occurs-take y (c.others s.world p) (c.others t.world p) (c.log p) (le p) o)

  -- Some fetched records stand in a row in the log, behind what has been committed.
  abbrev pub Follows : Fetches → Machine w.State → Type 0
  Follows f s =
      (p : ℕ)
      → (from : ℕ) × (many : ℕ) × ((y : Record) → IsAmong from (c.log p) y → IsPassed s p y)
        × (on p f.records ≡ take many (drop from (c.log p)))
        × (c.position s.world p ≤ from + many)

  process-Stays :
      (rs : List Record) (s : Machine w.State) → Stays w cfg c x s (process w cfg rs s).1
  process-Stays =
      process-Rel (staying w cfg c x) (λ r. (tt, λ o. tt, λ o e. tt)) (λ r. tt) (λ r. tt)
        (λ t ws. (λ p. (omega arith, omega arith), λ h. h))

  process-Silent :
      (rs : List Record) (s : Machine w.State) → Silent w cfg c x s (process w cfg rs s).1
  process-Silent =
      process-Rel (silence w cfg c x) (λ r. (tt, λ o. refl, λ o e. refl)) (λ r. refl) (λ r. refl)
        (λ t ws. (refl, λ p. omega arith, λ h. h))

  -- The commit of a batch covers the log.
  process-Covers :
      (f : Fetches) (s : Machine w.State)
      → Follows f s
      → Covers c.log (c.others s.world) (process w cfg f.records s).0.0 (committed_records s.trace)
  process-Covers f s follows a y oa oy le =
      let p = a.partition in
      let acked = (process w cfg f.records s).0.0 in
      let (from, many, before, row, last) = follows p in
      elim (covered (c.log p) (on p acked) [] from many a y (c.ascends p)
        (rw (← row) (process-IsPrefixOf w cfg f.records s p)) (Occurs-on a acked oa) oy le) [
          | inl o ↦ elim (before y o) [
            | inl k ↦ inl (Occurs-append_right y acked _ k)
            | inr k ↦ inr k
          ]
          | inr o ↦ inl (Occurs-append_left y acked _ (on-Occurs p y acked o))
        ]

  -- What one batch does, that goes on or not.
  abbrev Advances : Bool → Machine w.State → Type 0
  Advances done s = IsClosed w cfg c x s × (done ≡ false → Reaches s)

  -- A batch that was processed as a whole and committed reaches the positions behind it.
  Reaches-whole :
      (f : Fetches) (s t : Machine w.State)
      → Follows f s
      → ((p : ℕ) → Holds c.position c.others s.world t.world p)
      → committed_records t.trace ≡ f.records ++ committed_records s.trace
      → Reaches t
  Reaches-whole f s t follows moved same p y o =
      let (from, many, before, row, last) = follows p in
      let near : Occurs y (take from (c.log p)) ⊎ Occurs y (take many (drop from (c.log p))) =
        Occurs-take_cases y (c.position t.world p) from many (c.log p)
          (omega (arith, (moved p).0, last)) o in
      rw same (elim near [
        | inl k ↦ elim (before y k) [
          | inl o ↦ inl (Occurs-append_right y f.records _ o)
          | inr o ↦
              inr
                (Occurs-take y (c.others s.world p) (c.others t.world p) (c.log p) ((moved p).1) o)
        ]
        | inr k ↦ inl (Occurs-append_left y f.records _ (on-Occurs p y f.records (rw row k)))
      ])

  module _ (undelayed : natural cfg.delay ≡ 0) where
    -- How a batch ends once its offsets were asked for.
    conclude-Advances :
        (f : Fetches) (s : Machine w.State) (e : Option GoError)
        → let p = process w cfg f.records s in
          (t : Machine w.State)
          → Follows f s
          → Stays w cfg c x p.1 t
          → Commits w cfg c x p.0.0 p.1 (e, t)
          → Advances (conclude w cfg e p.0.1 t).0.0 (conclude w cfg e p.0.1 t).1
    unfolding conclude
    conclude-Advances f s (some e) t follows stays (gapless, made) = (gapless, λ q. cc)
    conclude-Advances f s none t follows stays (gapless, made) =
        let p = process w cfg f.records s in
        let t' = (ask w cfg w.cancelled t).1 in
        let looked : Silent w cfg c x t t' = (silence w cfg c x).asks_cancelled t in
        let moved : Stays w cfg c x t t' = (staying w cfg c x).asks_cancelled t in
        elim (Option-cases p.0.1) [
          | inr (e, q) ↦ rw q (gapless, λ z. cc)
          | inl q ↦ rw q (
            looked.2 gapless,
            λ goes_on. elim (process-Finishes w cfg x undelayed f.records s) [
              | inl whole ↦
                  let before = process-Stays f.records s in
                  let all = process-Silent f.records s in
                  let acked : p.0.0 ≡ f.records =
                    ap (λ (o : List Record × Option GoError). o.0) whole in
                  Reaches-whole f s t' follows
                    ((staying w cfg c x).joins s t t'
                      ((staying w cfg c x).joins s p.1 t before stays) moved).0
                    (made refl
                      ∙ ap (λ l. l ++ committed_records p.1.trace) acked
                      ∙ ap (λ l. f.records ++ l) all.0)
              | inr (inl (e, z)) ↦ cc (rw q at z)
              | inr (inr ended) ↦ let over = x.ending.over t.world (stays.1 ended) in cc
            ],
          )
        ]

    pub batch-Advances :
        (f : Fetches) (s : Machine w.State)
        → IsClosed w cfg c x s
        → Follows f s
        → Advances (batch w cfg f s).0.0 (batch w cfg f s).1
    unfolding batch batch_body
    batch-Advances f s gapless follows = elim (Bool-cases f.closed) [
      | inl q ↦ rw q (gapless, λ z. cc)
      | inr q ↦
          let p = process w cfg f.records s in
          let k = commit w cfg p.0.0 p.1 in
          let silent = process-Silent f.records s in
          let made = commit-Commits w cfg c x p.0.0 p.1 (silent.2 gapless) (
            Covers-more c.log (c.others s.world) (c.others p.1.world) (silent.1) p.0.0 _
              (rw silent.0 (process-Covers f s follows))) in
          rw q (
            conclude-Advances f s k.0 k.1 follows
              (commit-Rel (staying w cfg c x) p.0.0 p.1 (λ e. tt) (λ e. tt)) made)
    ]
