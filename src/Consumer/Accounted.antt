-- ===== src/Consumer/Accounted.antt =====
-- Every record that `process` returns for the commit has been accounted for.
use nine_core.Common.{
  ℕ, List, [], ◌∷◌, ◌++◌, Option, none, some, inl, inr, ◌⊎◌, ◌≡◌, refl, arith, Occurs, All,
  All-append, All-map,
}
use nine_core.Kafka.{Record}
use nine_core.Errors.{GoError}
use nine_core.Pipeline.{Outcome, unknown, done, retry, poison, fatal, other}
use nine_core.Consumer.{
  forward, answer, settle, one, judge, look, next, process_from, process, Verdict, passed_over,
  held_back, accounted, left, stopped_by,
}
use nine_core.Consumer.Look.{look_cases}
use nine_core.Consumer.Frame.{Frame, look-Rel}
use nine_core.Consumer.Setup.{Config, World, Machine, Call, handled, forwarded}

-- The handler answered Done, or the sink acknowledged the record after a Retry or a Poison.
abbrev pub IsAccounted : List Call → Record → Type 0
IsAccounted t r =
    Occurs (handled r done) t
    ⊎ Occurs (forwarded r retry none) t
    ⊎ Occurs (forwarded r poison none) t

-- The calls so far are still there.
abbrev pub Keeps : List Call → List Call → Type 0
Keeps t t' = (c : Call) → Occurs c t → Occurs c t'

Keeps-IsAccounted :
    (t t' : List Call) (r : Record) → Keeps t t' → IsAccounted t r → IsAccounted t' r
Keeps-IsAccounted t t' r k (inl o) = inl (k _ o)
Keeps-IsAccounted t t' r k (inr (inl o)) = inr (inl (k _ o))
Keeps-IsAccounted t t' r k (inr (inr o)) = inr (inr (k _ o))

module _ {T : Type 0} (w : World T) (cfg : Config) where
  abbrev keeping : Frame w cfg
  keeping = record {
    Rel = λ s s'. Keeps s.trace s'.trace;
    Okay = λ c. Unit {0};
    For = λ r. Unit {0};
    same = λ s c h. h;
    joins = λ a b d x y c h. y c (x c h);
    notes = λ x s o c h. inr h;
    handles = λ r m s u e c h. h;
    sends = λ send q r o e s u c h. h;
    asks_now = λ s c h. h;
    asks_cancelled = λ s c h. h;
    Polls = Unit {0};
    polls = λ u n d s c h. h;
    commits = λ rs s c h. h;
    hooks = λ hook q rs s c h. h;
  }

  forward_acknowledged :
      (r : Record) (o : Outcome) (e : Option GoError) (s : Machine w.State)
      → (forward w cfg r o e s).0 ≡ none
      → Occurs (forwarded r o none) (forward w cfg r o e s).1.trace
  unfolding forward
  forward_acknowledged r o e s h = ground arith

  -- The switch lets a record through in three cases.
  settle-none :
      (r : Record) (o : Outcome) (e : Option GoError) (s : Machine w.State)
      → (o ≡ done → Occurs (handled r done) s.trace)
      → (settle w cfg r o e s).0 ≡ none
      → IsAccounted (settle w cfg r o e s).1.trace r
  unfolding settle
  settle-none r unknown e s d h = cc
  settle-none r done e s d h = inl (d refl)
  settle-none r retry e s d h = inr (inl (forward_acknowledged r retry e s h))
  settle-none r poison e s d h = inr (inr (forward_acknowledged r poison e s h))
  settle-none r fatal e s d h = cc
  settle-none r (other n) e s d h = cc

  answer_done :
      (r : Record) (s : Machine w.State)
      → (answer w cfg r s).0.0 ≡ done
      → Occurs (handled r done) (answer w cfg r s).1.trace
  unfolding answer
  answer_done r s h = ground arith

  -- `one` lets the offset of a record be committed only if the record is accounted for.
  one-IsAccounted :
      (r : Record) (s : Machine w.State)
      → (one w cfg r s).0 ≡ none
      → IsAccounted (one w cfg r s).1.trace r
  unfolding one
  one-IsAccounted r s h = settle-none r _ _ _ (answer_done r s) h

  judge_accounted :
      (e : Option GoError) (s : Machine w.State)
      → (judge w cfg e s).0 ≡ accounted
      → (e ≡ none) × ((judge w cfg e s).1 ≡ s)
  unfolding judge
  judge_accounted none s h = (refl, refl)
  judge_accounted (some e) s h = ground arith

  look-Keeps :
      (held : List ℕ) (r : Record) (s : Machine w.State)
      → Keeps s.trace (look w cfg held r s).1.trace
  look-Keeps held r s = look-Rel keeping held r s (tt, λ o. tt, λ o e. tt) tt tt (λ t ws c h. h)

  look-IsAccounted :
      (held : List ℕ) (r : Record) (s : Machine w.State)
      → (look w cfg held r s).0 ≡ accounted
      → IsAccounted (look w cfg held r s).1.trace r
  look-IsAccounted held r s =
      look_cases w cfg (λ v s'. v ≡ accounted → IsAccounted s'.trace r) held r s (λ e h. cc)
        (λ e d h. cc)
        λ e d h. let (good, same) = judge_accounted _ _ h in rw same (one-IsAccounted r _ good)

  abbrev AllAccounted : List Record × Option GoError → Machine w.State → Type 0
  AllAccounted a s = All (IsAccounted s.trace) a.0

  next-AllAccounted :
      (v : Verdict) (r : Record) (held : List ℕ) (acked : List Record)
      (loop : List ℕ
        → List Record
        → Machine w.State
        → (List Record × Option GoError) × Machine w.State)
      (s : Machine w.State)
      → (v ≡ accounted → IsAccounted s.trace r)
      → All (IsAccounted s.trace) acked
      → ((held' : List ℕ) (acked' : List Record)
          → All (IsAccounted s.trace) acked'
          → AllAccounted (loop held' acked' s).0 (loop held' acked' s).1)
      → AllAccounted (next w cfg v r held acked loop s).0 (next w cfg v r held acked loop s).1
  unfolding next
  next-AllAccounted passed_over r held acked loop s a k ih = ih held acked k
  next-AllAccounted held_back r held acked loop s a k ih = ih (r.partition ∷ held) acked k
  next-AllAccounted accounted r held acked loop s a k ih =
      ih held (acked ++ r ∷ []) (All-append _ acked (r ∷ []) k (a refl, tt))
  next-AllAccounted left r held acked loop s a k ih = k
  next-AllAccounted (stopped_by e) r held acked loop s a k ih = k

  process_from-AllAccounted :
      (rs : List Record) (held : List ℕ) (acked : List Record) (s : Machine w.State)
      → All (IsAccounted s.trace) acked
      → AllAccounted (process_from w cfg rs held acked s).0 (process_from w cfg rs held acked s).1
  unfolding process_from
  process_from-AllAccounted [] held acked s k = k
  process_from-AllAccounted (r ∷ rs) held acked s k =
      next-AllAccounted (look w cfg held r s).0 r held acked (process_from w cfg rs)
        (look w cfg held r s).1 (look-IsAccounted held r s)
        (All-map _ _ (λ a. Keeps-IsAccounted _ _ a (look-Keeps held r s)) acked k)
        λ held' acked'. process_from-AllAccounted rs held' acked' (look w cfg held r s).1

  -- Each record that `process` returns for the commit has been answered with Done by the handler,
  -- or acknowledged by the sink after a Retry or a Poison.
  pub process-AllAccounted :
      (rs : List Record) (s : Machine w.State)
      → All (IsAccounted (process w cfg rs s).1.trace) (process w cfg rs s).0.0
  unfolding process
  process-AllAccounted rs s = process_from-AllAccounted rs [] [] s tt
