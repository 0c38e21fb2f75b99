-- ===== src/Consumer/Batches.antt =====
-- internal/consumer/consumer.go: what the loop of `process` keeps if its body does, and a batch.
use nine_core.Common.{
  ℕ, List, [], ◌∷◌, ◌++◌, Option, Bool, true, false, Bool-cases, inl, inr, All, All-each,
}
use nine_core.Kafka.{Record}
use nine_core.Errors.{GoError}
use nine_core.Consumer.{
  look, next, process_from, process, Verdict, passed_over, held_back, accounted, left, stopped_by,
  commit, batch_body, batch,
}
use nine_core.Consumer.Frame.{Frame, Tells, Waits, look-Rel, conclude-Rel, commit-Rel}
use nine_core.Consumer.Run.{after_poll}
use nine_core.Consumer.Setup.{
  sought, paused, Config, World, Machine, hooked, committed, rebalance_allowed, Fetches,
}

module _ {T : Type 0} (w : World T) (cfg : Config) (P : Machine w.State → Type 0)
    (Ok : Record → Type 0)
    (look-keeps : (hs : List ℕ) (r : Record) (s : Machine w.State)
      → Ok r
      → P s
      → P (look w cfg hs r s).1) where
  next-keeps :
      (v : Verdict) (r : Record) (hs : List ℕ) (acked : List Record)
      (loop : List ℕ
        → List Record
        → Machine w.State
        → (List Record × Option GoError) × Machine w.State)
      (s : Machine w.State)
      → P s
      → ((hs' : List ℕ) (acked' : List Record) → P (loop hs' acked' s).1)
      → P (next w cfg v r hs acked loop s).1
  unfolding next
  next-keeps passed_over r hs acked loop s h k = k hs acked
  next-keeps held_back r hs acked loop s h k = k (r.partition ∷ hs) acked
  next-keeps accounted r hs acked loop s h k = k hs (acked ++ r ∷ [])
  next-keeps left r hs acked loop s h k = h
  next-keeps (stopped_by e) r hs acked loop s h k = h

  -- The loop of `process` keeps what the body of the loop keeps.
  process_from-keeps :
      (rs : List Record) (hs : List ℕ) (acked : List Record) (s : Machine w.State)
      → All Ok rs
      → P s
      → P (process_from w cfg rs hs acked s).1
  unfolding process_from
  process_from-keeps [] hs acked s o h = h
  process_from-keeps (r ∷ rs) hs acked s (o, os) h =
      let s1 = (look w cfg hs r s).1 in
      let h1 = look-keeps hs r s o h in
      next-keeps (look w cfg hs r s).0 r hs acked (process_from w cfg rs) s1 h1
        (λ hs' acked'. process_from-keeps rs hs' acked' s1 os h1)

-- The loop of `process` stands in a relation that each of its calls keeps.
pub process-Rel :
    {T : Type 0} {w : World T} {cfg : Config} (f : Frame w cfg)
    → ((r : Record) → Tells f r)
    → ((r : Record) → f.Okay (sought r.partition r.offset))
    → ((r : Record) → f.Okay (paused r.partition))
    → Waits f
    → (rs : List Record) (s : Machine w.State) → f.Rel s (process w cfg rs s).1
unfolding process
process-Rel {w} {cfg} f tells okay okay' waits rs s =
    process_from-keeps w cfg (f.Rel s) (λ r. Unit {0})
      (λ held r t u h.
        f.joins s t (look w cfg held r t).1 h
          (look-Rel f held r t (tells r) (okay r) (okay' r) waits))
      rs [] [] s (All-each _ rs (λ r. tt)) (f.same s)

module _ {T : Type 0} {w : World T} {cfg : Config} (f : Frame w cfg) (P : Machine w.State → Type 0)
    (Ok : Record → Type 0) (framed : (a b : Machine w.State) → f.Rel a b → P a → P b)
    (look-keeps : (hs : List ℕ) (r : Record) (s : Machine w.State)
      → Ok r
      → P s
      → P (look w cfg hs r s).1)
    (okay : (rs : List Record) (e : Option GoError) → f.Okay (hooked rs e))
    (okay' : (rs : List Record) (e : Option GoError) → f.Okay (committed rs e))
    (okay'' : f.Okay rebalance_allowed) where
  batch_body-keeps :
      (x : Fetches) (s : Machine w.State) → All Ok x.records → P s → P (batch_body w cfg x s).1
  unfolding batch_body process
  batch_body-keeps x s o h = elim (Bool-cases x.closed) [
    | inl c ↦ rw c h
    | inr c ↦
        let r = process_from w cfg x.records [] [] s in
        let k = commit w cfg r.0.0 r.1 in
        rw c (
          framed k.1 _ (conclude-Rel f k.0 r.0.1 k.1) (
            framed r.1 k.1 (commit-Rel f r.0.0 r.1 (okay r.0.0) (okay' r.0.0))
              (process_from-keeps w cfg P Ok look-keeps x.records [] [] s o h)))
  ]

  pub after_poll-keeps_if :
      (x : Fetches) (b : Bool) (s : Machine w.State)
      → All Ok x.records
      → P s
      → P (after_poll w cfg x b s).1
  unfolding after_poll batch
  after_poll-keeps_if x true s o h = framed s _ (f.notes rebalance_allowed s okay'') h
  after_poll-keeps_if x false s o h =
      framed (batch_body w cfg x s).1 _ (f.notes rebalance_allowed (batch_body w cfg x s).1 okay'')
        (batch_body-keeps x s o h)
