-- ===== src/Retry/Forwarder/Routes.antt =====
-- Where the forwarder sends a record: always further along the ladder.
use nine_core.Common.{
  ℕ, ◌<◌, Option, none, some, true, false, Bytes, bytes_eq, bytes_eq→eq, Bool-cases, inl, inr, ◌⊎◌,
  if◌then◌else◌, ◌≡◌, refl, sym, ap, arith,
}
use nine_core.Errors.{GoError, Result, ok, err}
use nine_core.Pipeline.{Outcome, unknown, done, retry, poison, fatal, other}
use nine_core.Kafka.{Record}
use nine_core.Retry.Chain.{
  events_topic, retry_5m, retry_1h, parked, dlq, tiers, next_topic, in_chain,
}
use nine_core.Retry.Marks.{Marks, spent}
use nine_core.Retry.Forwarder.{Naming, climb, route, addressed}

-- How far along a topic is: the ladder, then the two topics where a record stops.
unfoldable pub rank : Bytes → ℕ
unfolding bytes_eq
rank t =
    if bytes_eq t retry_5m
    then 1
    else if bytes_eq t retry_1h
    then 2
    else if bytes_eq t parked
    then 3
    else if bytes_eq t dlq
    then 4
    else 0

-- The chain is one step for each of its topics.
next_topic_cases :
    (t : Bytes)
    → ((t ≡ events_topic) × (next_topic t ≡ some retry_5m))
      ⊎ ((t ≡ retry_5m) × (next_topic t ≡ some retry_1h))
      ⊎ ((t ≡ retry_1h) × (next_topic t ≡ none))
      ⊎ ((in_chain t ≡ false) × (next_topic t ≡ none))
next_topic_cases t = elim (Bool-cases (bytes_eq events_topic t)) [
  | inl e ↦
      let same = bytes_eq→eq events_topic t e in
      inl (sym same, rw (← same) (unfold next_topic bytes_eq in refl))
  | inr e ↦ elim (Bool-cases (bytes_eq retry_5m t)) [
    | inl f ↦
        let same = bytes_eq→eq retry_5m t f in
        inr (inl (sym same, rw (← same) (unfold next_topic bytes_eq in refl)))
    | inr f ↦ elim (Bool-cases (bytes_eq retry_1h t)) [
      | inl g ↦
          let same = bytes_eq→eq retry_1h t g in
          inr (inr (inl (sym same, rw (← same) (unfold next_topic bytes_eq in refl))))
      | inr g ↦ inr (inr (inr (unfold in_chain in rw (e, f, g), unfold next_topic in rw (e, f))))
    ]
  ]
]

addressed-eq-ok :
    (t : Bytes) (x : Result Marks) (dest : Bytes) (m : Marks)
    → addressed t x ≡ ok (dest, m)
    → (dest ≡ t) × (x ≡ ok m)
addressed-eq-ok t (ok m') dest m h = (cc, cc)
addressed-eq-ok t (err e) dest m h = cc

rank_ladder :
    (rank events_topic ≡ 0)
    × (rank retry_5m ≡ 1)
    × (rank retry_1h ≡ 2)
    × (rank parked ≡ 3)
    × (rank dlq ≡ 4)
unfolding rank bytes_eq
rank_ladder = (refl, refl, refl, refl, refl)

module _ (n : Naming) (r : Record) (code : Bytes) (now : ℕ) (dest : Bytes) (m : Marks) where
  climb-dest :
      (next : Option Bytes)
      → climb n next r code now ≡ ok (dest, m)
      → (dest ≡ parked) ⊎ (next ≡ some dest)
  unfolding climb
  climb-dest none h = inl (addressed-eq-ok parked _ dest m h).0
  climb-dest (some t) h = elim (Bool-cases (spent r tiers)) [
    | inl e ↦ inl (addressed-eq-ok parked _ dest m (rw e at h)).0
    | inr e ↦ inr (ap some (sym (addressed-eq-ok t _ dest m (rw e at h)).0))
  ]

  climb-rank :
      in_chain r.topic ≡ true
      → climb n (next_topic r.topic) r code now ≡ ok (dest, m)
      → rank r.topic < rank dest
  climb-rank c h =
      let (r0, r1, r2, r3, r4) = rank_ladder in
      elim (climb-dest (next_topic r.topic) h) [
        | inl p ↦ elim (next_topic_cases r.topic) [
          | inl (t, e) ↦ rw (t, p, r0, r3) (omega arith)
          | inr (inl (t, e)) ↦ rw (t, p, r1, r3) (omega arith)
          | inr (inr (inl (t, e))) ↦ rw (t, p, r2, r3) (omega arith)
          | inr (inr (inr (t, e))) ↦ cc
        ]
        | inr p ↦ elim (next_topic_cases r.topic) [
          | inl (t, e) ↦ let q : retry_5m ≡ dest = cc in rw (t, ← q, r0, r1) (omega arith)
          | inr (inl (t, e)) ↦ let q : retry_1h ≡ dest = cc in rw (t, ← q, r1, r2) (omega arith)
          | inr (inr (inl (t, e))) ↦ cc
          | inr (inr (inr (t, e))) ↦ cc
        ]
      ]

rank-lt-dlq : (t : Bytes) → in_chain t ≡ true → rank t < rank dlq
rank-lt-dlq t c =
    let (r0, r1, r2, r3, r4) = rank_ladder in
    elim (next_topic_cases t) [
      | inl (e, _) ↦ rw (e, r0, r4) (omega arith)
      | inr (inl (e, _)) ↦ rw (e, r1, r4) (omega arith)
      | inr (inr (inl (e, _))) ↦ rw (e, r2, r4) (omega arith)
      | inr (inr (inr (e, _))) ↦ cc
    ]

-- A record read from the chain that the forwarder sends anywhere goes strictly further along:
-- the rungs of the chain in their order, then the parked topic, then the dead letter topic. So no
-- sequence of hops comes back to a topic.
pub rank-route :
    (n : Naming) (r : Record) (o : Outcome) (cause : Option GoError) (now : ℕ) (dest : Bytes)
    (m : Marks)
    → in_chain r.topic ≡ true
    → route n r o cause now ≡ ok (dest, m)
    → rank r.topic < rank dest
unfolding route
rank-route n r poison cause now dest m c h =
    let (d, _) = addressed-eq-ok dlq _ dest m h in rw d (rank-lt-dlq r.topic c)
rank-route n r retry cause now dest m c h =
    climb-rank n r (n.code_for cause) now dest m c (rw c at h)
rank-route n r unknown cause now dest m c h = cc
rank-route n r done cause now dest m c h = cc
rank-route n r fatal cause now dest m c h = cc
rank-route n r (other k) cause now dest m c h = cc
