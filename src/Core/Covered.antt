-- ===== src/Core/Covered.antt =====
-- cmd/core/main.go: what an offset of the whole process stands for, on a topic without a delay.
use nine_core.Common.{
  false, ◌⊎◌, ℕ, ◌≤◌, List, [], Option, codes, bytes_eq, ◌≡◌, refl, sym, ap, ◌∙◌, subst, Occurs,
  All-Occurs, Option-cases, inl, inr, pos, natural,
}
use nine_core.Errors.{GoError, ok, Result-cases}
use nine_core.Kafka.{Record}
use nine_core.Consumer.Setup.{Config, Machine, committed, with_defaults, new}
use nine_core.Consumer.Log.{IsAmong, Client, Context, IsGapless}
use nine_core.Consumer.Log.Reach.{IsCaughtUp}
use nine_core.Consumer.Log.Loop.{run-IsGapless}
use nine_core.Consumer.Log.Below.{IsGapless-IsOfCommit}
use nine_core.Core.Durable.{Durable}
use nine_core.Core.Guarantee.{IsSettled, attempt-cases, committed-IsSettled, made-idle, ok_inj}
use nine_core.Core.{Process, Platform, wired, Ends, made, ran, core, delay, configured, settings}

-- Without a setting there is no delay.
configured_undelayed :
    (os : Process) (cfg : Config)
    → os.getenv (codes "NINE_CONSUMER_DELAY") ≡ []
    → configured os ≡ ok cfg
    → cfg.delay ≡ pos 0
unfolding configured delay bytes_eq
configured_undelayed os cfg unset h =
    let same : ok (settings os (pos 0)) ≡ ok cfg = rw unset at h in
    let this : settings os (pos 0) ≡ cfg = cc in sym (ap (λ (k : Config). k.delay) this)

module _ (p : Platform) (d : Durable p) (c : Client (wired p)) (ctx : Context (wired p))
    (joined : (cfg : Config) (s : p.State) (q : ℕ) → c.position (p.join cfg s).1 q ≡ 0) where
  -- The consumer that is made has the delay of its configuration, and stands at the start of the log.
  made_at_start :
      (cfg : Config) (s : p.State) (k : Config × Machine p.State)
      → (made p cfg s).0 ≡ ok k
      → (k.0.delay ≡ cfg.delay) × ((q : ℕ) → c.position (made p cfg s).1 q ≡ 0)
  unfolding new with_defaults
  made_at_start cfg s k h = elim (Option-cases (new cfg s).0) [
    | inl a ↦ elim (Result-cases (p.join (with_defaults cfg) s).0) [
      | inl (u, b) ↦
          let same = ok_inj p d (rw (a, b, made) at h) in
          (
            ap (λ (m : Config × Machine p.State). m.0.delay) (sym same),
            rw (a, made) (joined (with_defaults cfg) s),
          )
      | inr (y, b) ↦ cc (rw (a, b, made) at h)
    ]
    | inr (y, a) ↦ cc (rw (a, made) at h)
  ]

  abbrev LeavesNoGap : Ends p → Type 0
  LeavesNoGap o = (p.cancelled o.1.world).0 ≡ false → IsGapless c.log (c.others o.1.world) o.1.trace

  made-IsCaughtUp :
      (cfg : Config) (s : p.State) (k : Config × Machine p.State)
      → (made p cfg s).0 ≡ ok k
      → IsCaughtUp (wired p) cfg c ctx k.1
  made-IsCaughtUp cfg s k h =
      let start = (made_at_start cfg s k h).1 in
      rw (made-idle p d cfg s k h)
        (refl, tt, λ q y o. absurd (subst (λ n. IsAmong n (c.log q) y) (start q) o))

  ran-LeavesNoGap :
      (fuel : ℕ) (cfg : Config) (s : p.State) (k : Config × Machine p.State)
      → natural cfg.delay ≡ 0
      → (made p cfg s).0 ≡ ok k
      → LeavesNoGap (ran p fuel k)
  ran-LeavesNoGap fuel cfg s k z h =
      let undelayed : natural k.0.delay ≡ 0 = ap natural (made_at_start cfg s k h).0 ∙ z in
      run-IsGapless (wired p) k.0 c ctx undelayed fuel k.1 (made-IsCaughtUp cfg s k h)

  core-LeavesNoGap :
      (os : Process) (fuel : ℕ) (s : p.State)
      → os.getenv (codes "NINE_CONSUMER_DELAY") ≡ []
      → LeavesNoGap (core p os fuel s)
  unfolding core
  core-LeavesNoGap os fuel s unset =
      attempt-cases p d LeavesNoGap _ _ (λ y t h. tt)
        (λ cfg read.
          attempt-cases p d LeavesNoGap _ _ (λ y t h. tt)
            (λ _ _.
              attempt-cases p d LeavesNoGap _ _ (λ y t h. tt)
                (λ _ _.
                  attempt-cases p d LeavesNoGap _ _ (λ y t h. tt)
                    (λ k q.
                      ran-LeavesNoGap fuel cfg _ k
                        (ap natural (configured_undelayed os cfg unset read)) q))))

  -- On a platform whose database and whose client do what their documentation says, and with no
  -- delay set: however long the process runs and wherever it stops,
  -- as long as its context is not found to have ended then, whatever the log of a partition holds at
  -- or below the offset of a record that was sent to be committed has been settled, also if an
  -- earlier poll fetched it, or was committed by another member of the group. The client fetches as
  -- its documentation says, and stands at the start of the log once the consumer has joined its
  -- group; a context that is found to have ended stays so.
  pub below_committed-IsSettled :
      (os : Process) (fuel : ℕ) (s : p.State)
      → os.getenv (codes "NINE_CONSUMER_DELAY") ≡ []
      → let end = (core p os fuel s).1 in
        (p.cancelled end.world).0 ≡ false
        → (rs : List Record) (e : Option GoError) (r y : Record) → Occurs (committed rs e) end.trace
        → Occurs r rs
        → Occurs y (c.log r.partition)
        → y.offset ≤ r.offset
        → IsSettled p d end.world y ⊎ IsAmong (c.others end.world r.partition) (c.log r.partition) y
  below_committed-IsSettled os fuel s unset lasts rs e r y sent among held le =
      let end = (core p os fuel s).1 in
      let gapless = core-LeavesNoGap os fuel s unset lasts in
      elim (IsGapless-IsOfCommit c.log (c.others end.world) end.trace rs e r y gapless sent among
        held le) [
          | inl (rs', e', o, h) ↦
              inl (All-Occurs _ rs' y (committed-IsSettled p d os fuel s rs' e' o) h)
          | inr h ↦ inr h
        ]
