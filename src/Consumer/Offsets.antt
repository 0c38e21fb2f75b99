-- ===== src/Consumer/Offsets.antt =====
-- What an offset commit covers: nothing of a batch is skipped below it.
use nine_core.Common.{
  ℕ, ◌≤◌, ◌<◌, List, [], ◌∷◌, ◌++◌, Bool-cases, inl, inr, ◌==◌, ◌≡◌, sym, subst, arith, Occurs,
  Occurs-append_cases, Occurs-append_right, All, All-Occurs, ==_iff,
}
use nine_core.Kafka.{Record}
use nine_core.Consumer.{process}
use nine_core.Consumer.Prefix.{on, IsPrefixOf, process-IsPrefixOf}
use nine_core.Consumer.Setup.{Config, World, Machine}

-- Offsets rise along a list of records.
abbrev pub Ascends : List Record → Type 0
Ascends [] = Unit
Ascends (r ∷ rs) = All (λ a. r.offset < a.offset) rs × Ascends rs

-- Offsets rise along each partition of a batch.
abbrev pub AscendsByPartition : List Record → Type 0
AscendsByPartition rs = (p : ℕ) → Ascends (on p rs)

pub Occurs-on : (r : Record) (rs : List Record) → Occurs r rs → Occurs r (on r.partition rs)
Occurs-on r [] h = absurd h
Occurs-on r (x ∷ rs) (inl e) = rw ((==_iff x.partition r.partition).1 (ground arith)) (inl e)
Occurs-on r (x ∷ rs) (inr h) = elim (Bool-cases (x.partition == r.partition)) [
  | inl e ↦ rw e (inr (Occurs-on r rs h))
  | inr e ↦ rw e (Occurs-on r rs h)
]

pub on-Occurs : (p : ℕ) (r : Record) (rs : List Record) → Occurs r (on p rs) → Occurs r rs
on-Occurs p r [] h = absurd h
on-Occurs p r (x ∷ rs) h = ground (arith, on-Occurs p r rs)

-- In a rising list, what stands behind a part of it is above that part.
pub Ascends-append :
    (xs rest : List Record) (a r : Record)
    → Ascends (xs ++ rest)
    → Occurs a xs
    → Occurs r rest
    → a.offset < r.offset
Ascends-append [] rest a r k h o = absurd h
Ascends-append (x ∷ xs) rest a r (b, k) (inl e) o =
    rw e (All-Occurs _ (xs ++ rest) r b (Occurs-append_right r xs rest o))
Ascends-append (x ∷ xs) rest a r (b, k) (inr h) o = Ascends-append xs rest a r k h o

pub IsPrefixOf-Occurs :
    (xs ys : List Record) (a r : Record)
    → IsPrefixOf xs ys
    → Ascends ys
    → Occurs a xs
    → Occurs r ys
    → r.offset ≤ a.offset
    → Occurs r xs
IsPrefixOf-Occurs xs ys a r (rest, e) k ha hr le = elim (Occurs-append_cases r xs rest (rw e hr)) [
  | inl h ↦ h
  | inr h ↦ absurd (behind h)
]
  where
    behind : Occurs r rest → ⊥
    behind h =
        let lt : a.offset < r.offset = Ascends-append xs rest a r (rw e k) ha h in omega arith

-- If the offsets of a batch rise along each partition, then whatever record the batch holds at or
-- below the offset of a record that is committed, on the same partition, is itself committed:
-- an offset commit steps over no record of its batch.
pub committed_covers :
    {T : Type 0} (w : World T) (cfg : Config) (rs : List Record) (s : Machine w.State)
    (a r : Record)
    → AscendsByPartition rs
    → Occurs a (process w cfg rs s).0.0
    → Occurs r rs
    → r.partition ≡ a.partition
    → r.offset ≤ a.offset
    → Occurs r (process w cfg rs s).0.0
committed_covers w cfg rs s a r k ha hr e le = on-Occurs r.partition r acked (
    IsPrefixOf-Occurs (on r.partition acked) (on r.partition rs) a r
      (process-IsPrefixOf w cfg rs s r.partition) (k r.partition)
      (subst (λ p. Occurs a (on p acked)) (sym e) (Occurs-on a acked ha)) (Occurs-on r rs hr) le)
  where
    acked : List Record
    acked = (process w cfg rs s).0.0
