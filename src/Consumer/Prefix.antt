-- ===== src/Consumer/Prefix.antt =====
-- What `process` hands to the commit: of each partition, an initial part of the batch.
use nine_core.Common.{
  ℕ, List, [], ◌∷◌, ◌++◌, Option, none, some, true, false, Bool-cases, inl, inr, ◌==◌,
  if◌then◌else◌, ◌≡◌, refl, sym, subst, ap, ◌∙◌, arith, append_assoc, append-nil, ==_iff, ◌≢◌,
}
use nine_core.Kafka.{Record}
use nine_core.Errors.{GoError}
use nine_core.Consumer.{
  look, judge, next, process_from, process, Verdict, passed_over, held_back, accounted, left,
  stopped_by,
}
use nine_core.Consumer.Look.{look_cases}
use nine_core.Consumer.Setup.{Config, World, Machine, contains}

-- The records of one partition, in their order.
abbrev pub on : ℕ → List Record → List Record
on p [] = []
on p (r ∷ rs) = if r.partition == p then r ∷ on p rs else on p rs

abbrev pub IsPrefixOf : List Record → List Record → Type 0
IsPrefixOf xs ys = (rest : List Record) × (xs ++ rest ≡ ys)

-- How the loop picks the records to commit, given the partitions held so far.
data Picks : List ℕ → List Record → List Record → Type 0 where
  ends : {held : List ℕ} {rs : List Record} → Picks held rs []
  passes :
      {held : List ℕ} {rs picked : List Record} (r : Record)
      → contains held r.partition ≡ true
      → Picks held rs picked
      → Picks held (r ∷ rs) picked
  holds :
      {held : List ℕ} {rs picked : List Record} (r : Record)
      → Picks (r.partition ∷ held) rs picked
      → Picks held (r ∷ rs) picked
  takes :
      {held : List ℕ} {rs picked : List Record} (r : Record)
      → contains held r.partition ≡ false
      → Picks held rs picked
      → Picks held (r ∷ rs) (r ∷ picked)

-- Nothing is picked on a held partition.
Picks-held :
    {held : List ℕ} {rs picked : List Record} (p : ℕ)
    → Picks held rs picked
    → contains held p ≡ true
    → on p picked ≡ []
Picks-held p ends h = refl
Picks-held p (passes r c k) h = Picks-held p k h
Picks-held {held} p (holds r k) h = Picks-held p k (unfold contains in ground arith)
Picks-held p (takes r c k) h = ground (arith, Picks-held p k h)

newly_held :
    (r : Record) (held : List ℕ) (p : ℕ)
    → (r.partition == p) ≡ true
    → contains (r.partition ∷ held) p ≡ true
unfolding contains
newly_held r held p e = rw e

Picks-IsPrefixOf :
    {held : List ℕ} {rs picked : List Record} (p : ℕ)
    → Picks held rs picked
    → IsPrefixOf (on p picked) (on p rs)
Picks-IsPrefixOf {rs} p ends = (on p rs, refl)
Picks-IsPrefixOf {held} p (passes {rs} r c k) = elim (Bool-cases (r.partition == p)) [
  | inl e ↦ (
    r ∷ on p rs,
    rw e (
        ap (λ xs. xs ++ r ∷ on p rs)
          (Picks-held p k (subst (λ q. contains held q ≡ true) ((==_iff _ p).0 e) c))),
  )
  | inr e ↦ rw e (Picks-IsPrefixOf p k)
]
Picks-IsPrefixOf {held} p (holds {rs} r k) = elim (Bool-cases (r.partition == p)) [
  | inl e ↦
      (r ∷ on p rs, rw e (ap (λ xs. xs ++ r ∷ on p rs) (Picks-held p k (newly_held r held p e))))
  | inr e ↦ rw e (Picks-IsPrefixOf p k)
]
Picks-IsPrefixOf p (takes r c k) = elim (Bool-cases (r.partition == p)) [
  | inl e ↦ let (rest, q) = Picks-IsPrefixOf p k in rw e (rest, ap (◌∷◌ r) q)
  | inr e ↦ rw e (Picks-IsPrefixOf p k)
]

module _ {T : Type 0} (w : World T) (cfg : Config) where
  judge-ne-passed_over :
      (e : Option GoError) (s : Machine w.State) → (judge w cfg e s).0 ≢ passed_over
  unfolding judge
  judge-ne-passed_over none s h = cc
  judge-ne-passed_over (some e) s h = ground arith

  look-passed_over :
      (held : List ℕ) (r : Record) (s : Machine w.State)
      → (look w cfg held r s).0 ≡ passed_over
      → contains held r.partition ≡ true
  look-passed_over held r s =
      look_cases w cfg (λ v s'. v ≡ passed_over → contains held r.partition ≡ true) held r s
        (λ e h. e) (λ e d h. cc) (λ e d h. absurd (judge-ne-passed_over _ _ h))

  look-accounted :
      (held : List ℕ) (r : Record) (s : Machine w.State)
      → (look w cfg held r s).0 ≡ accounted
      → contains held r.partition ≡ false
  look-accounted held r s =
      look_cases w cfg (λ v s'. v ≡ accounted → contains held r.partition ≡ false) held r s
        (λ e h. cc) (λ e d h. e) (λ e d h. e)

  -- The records that the loop adds to `acked`.
  abbrev Adds : List ℕ → List Record → List Record → List Record → Type 0
  Adds held rs acked out = (picked : List Record) × (out ≡ acked ++ picked) × Picks held rs picked

  next-Adds :
      (v : Verdict) (r : Record) (rs : List Record) (held : List ℕ) (acked : List Record)
      (s : Machine w.State)
      → (v ≡ passed_over → contains held r.partition ≡ true)
      → (v ≡ accounted → contains held r.partition ≡ false)
      → ((held' : List ℕ) (acked' : List Record) (s' : Machine w.State)
          → Adds held' rs acked' (process_from w cfg rs held' acked' s').0.0)
      → Adds held (r ∷ rs) acked (next w cfg v r held acked (process_from w cfg rs) s).0.0
  unfolding next
  next-Adds passed_over r rs held acked s p a ih =
      let (picked, e, k) = ih held acked s in (picked, e, passes r (p refl) k)
  next-Adds held_back r rs held acked s p a ih =
      let (picked, e, k) = ih (r.partition ∷ held) acked s in (picked, e, holds r k)
  next-Adds accounted r rs held acked s p a ih =
      let (picked, e, k) = ih held (acked ++ r ∷ []) s in
      (r ∷ picked, e ∙ append_assoc acked (r ∷ []) picked, takes r (a refl) k)
  next-Adds left r rs held acked s p a ih = ([], sym (append-nil acked), ends)
  next-Adds (stopped_by e) r rs held acked s p a ih = ([], sym (append-nil acked), ends)

  process_from-Adds :
      (rs : List Record) (held : List ℕ) (acked : List Record) (s : Machine w.State)
      → Adds held rs acked (process_from w cfg rs held acked s).0.0
  unfolding process_from
  process_from-Adds [] held acked s = ([], sym (append-nil acked), ends)
  process_from-Adds (r ∷ rs) held acked s =
      next-Adds (look w cfg held r s).0 r rs held acked (look w cfg held r s).1
        (look-passed_over held r s) (look-accounted held r s) (process_from-Adds rs)

  process-Picks : (rs : List Record) (s : Machine w.State) → Picks [] rs (process w cfg rs s).0.0
  unfolding process
  process-Picks rs s = let (picked, e, k) = process_from-Adds rs [] [] s in rw e k

  -- Of every partition, the records that `process` returns for the commit are the first ones of
  -- the batch, in their order: none is passed over.
  pub process-IsPrefixOf :
      (rs : List Record) (s : Machine w.State) (p : ℕ)
      → IsPrefixOf (on p (process w cfg rs s).0.0) (on p rs)
  process-IsPrefixOf rs s p = Picks-IsPrefixOf p (process-Picks rs s)
