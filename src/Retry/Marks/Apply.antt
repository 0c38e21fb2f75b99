-- ===== src/Retry/Marks/Apply.antt =====
-- internal/retry/marks.go: the marks that a record says after `Apply`.
use nine_core.Common.{
  ℕ, ◌%◌, ◌*◌, ◌<◌, List, [], ◌∷◌, ◌++◌, Option, none, some, Bool, true, false, Bytes, bytes_eq,
  bytes_eq→eq, ◌==◌, ==_iff, Bool-cases, inl, inr, if◌then◌else◌, ◌&&◌, pos, map, ◌≡◌, refl, ap,
  ◌∙◌, arith, int_limit,
}
use nine_core.Errors.{ok}
use nine_core.Strconv.{itoa}
use nine_core.Strconv.RoundTrip.{atoi-itoa}
use nine_core.Kafka.{Record, Header}
use nine_core.Retry.Marks.{
  Marks, TimeText, header, keep, headers_of, apply, read, round, read_time, mark_if, second,
  value_or, read_time_of,
}
use nine_core.Retry.Marks.Vocabulary.{
  is_key, is_nine_header, header_event_id, header_round, header_outcome, header_failure_code,
  header_source_topic, header_first_failed_at, header_parked_at,
}

-- The first of two answers.
abbrev pub first : Option Bytes → Option Bytes → Option Bytes
first none b = b
first (some a) b = some a

pub header-append :
    (xs ys : List Header) (k : Bytes) → header (xs ++ ys) k ≡ first (header xs k) (header ys k)
unfolding header
header-append [] ys k = refl
header-append (x ∷ xs) ys k = ground (arith, header-append xs ys k)

bytes_eq_trans : (a b c : Bytes) → bytes_eq a b ≡ true → bytes_eq b c ≡ bytes_eq a c
bytes_eq_trans a b c h = rw (bytes_eq→eq a b h)

-- No mark survives in what is kept.
header-keep_nine :
    (mine : List Bytes) (hs : List Header) (k : Bytes)
    → is_nine_header k ≡ true
    → header (keep mine hs) k ≡ none
unfolding header keep
header-keep_nine mine [] k n = refl
header-keep_nine mine (h ∷ hs) k n = elim (Bool-cases (bytes_eq h.key k)) [
  | inl e ↦
      let same : is_nine_header h.key ≡ true = rw (bytes_eq→eq h.key k e) n in
      ground (arith, header-keep_nine mine hs k n)
  | inr e ↦ ground (arith, header-keep_nine mine hs k n)
]

-- The header of a name that may be left out.
header-mark_if :
    (b : Bool) (key v : Bytes) (ys : List Header) (k : Bytes)
    → header (mark_if b key v ++ ys) k ≡ (if b && bytes_eq key k then some v else header ys k)
unfolding header
header-mark_if true key v ys k = refl
header-mark_if false key v ys k = refl

module _ (times : TimeText) (m : Marks) where
  written : Bytes → Option Bytes
  unfolding headers_of
  written k = header (headers_of times m) k

  written_round : written header_round ≡ some (itoa m.round)
  unfolding written header bytes_eq
  written_round = ground arith

  written_failure_code : written header_failure_code ≡ some m.failure_code
  unfolding written header bytes_eq
  written_failure_code = ground arith

  written_source_topic : written header_source_topic ≡ some m.source_topic
  unfolding written header bytes_eq
  written_source_topic = ground arith

  written_event_id :
      written header_event_id ≡ (if bytes_eq m.event_id [] then none else some m.event_id)
  unfolding written header bytes_eq
  written_event_id = ground arith

  written_outcome :
      written header_outcome ≡ (if bytes_eq m.outcome [] then none else some m.outcome)
  unfolding written header bytes_eq
  written_outcome = ground arith

  written_first_failed_at :
      written header_first_failed_at
      ≡ (if m.first_failed_at == 0 then none else some (times.format m.first_failed_at))
  unfolding written header bytes_eq
  written_first_failed_at = ground arith

  written_parked_at :
      written header_parked_at
      ≡ (if m.parked_at == 0 then none else some (times.format m.parked_at))
  unfolding written header bytes_eq
  written_parked_at = ground arith

  -- A mark reads what was written, whatever the record carried before.
  header-apply_nine :
      (r : Record) (k : Bytes)
      → is_nine_header k ≡ true
      → header (apply times m r).headers k ≡ written k
  unfolding apply written
  header-apply_nine r k n =
      let mine = map (λ (h : Header). h.key) (headers_of times m) in
      header-append (keep mine r.headers) (headers_of times m) k
      ∙ ap (λ o. first o (header (headers_of times m) k)) (header-keep_nine mine r.headers k n)

value_or-if : (s : Bytes) → value_or (if bytes_eq s [] then none else some s) [] ≡ s
unfolding bytes_eq
value_or-if [] = refl
value_or-if (c ∷ s) = refl

-- The times that RFC3339 writes and reads back: whole seconds before the year 10000.
abbrev pub IsWritable : ℕ → Type 0
IsWritable t = (t % second ≡ 0) × (t < 3652059 * 86400 * second)

-- The documented behaviour of the standard library on such times.
abbrev pub ReadsBack : TimeText → Type 0
ReadsBack times = (t : ℕ) → IsWritable t → times.parse (times.format t) ≡ some t

-- Marks with a round that counts up from 0 in an `int`, and times that can be written.
pub record IsSound (m : Marks) : Type 0 where
  pub count : ℕ
  pub counted : m.round ≡ pos count
  pub in_int : count < int_limit
  pub first_writable : IsWritable m.first_failed_at
  pub parked_writable : IsWritable m.parked_at

module _ (times : TimeText) (back : ReadsBack times) (m : Marks) (v : IsSound m) where
  round-apply : (r : Record) → round (apply times m r) ≡ ok m.round
  unfolding round is_nine_header is_key bytes_eq
  round-apply r = rw (
    header-apply_nine times m r header_round refl,
    written_round times m,
    v.counted,
    atoi-itoa (pos v.count) v.in_int,
  )

  read_time_of_written :
      (key : Bytes) (t : ℕ)
      → IsWritable t
      → read_time_of times key (if t == 0 then none else some (times.format t)) ≡ ok t
  read_time_of_written key t h = elim (Bool-cases (t == 0)) [
    | inl e ↦ let z : t ≡ 0 = (==_iff t 0).0 e in rw z
    | inr e ↦ rw (e, back t h)
  ]

  read_time-first :
      (r : Record) → read_time times (apply times m r) header_first_failed_at ≡ ok m.first_failed_at
  unfolding read_time is_nine_header is_key bytes_eq
  read_time-first r =
      rw (header-apply_nine times m r header_first_failed_at refl, written_first_failed_at times m)
        (read_time_of_written header_first_failed_at m.first_failed_at v.first_writable)

  read_time-parked :
      (r : Record) → read_time times (apply times m r) header_parked_at ≡ ok m.parked_at
  unfolding read_time is_nine_header is_key bytes_eq
  read_time-parked r =
      rw (header-apply_nine times m r header_parked_at refl, written_parked_at times m)
        (read_time_of_written header_parked_at m.parked_at v.parked_writable)

  texts :
      (r : Record) (k d s : Bytes)
      → is_nine_header k ≡ true
      → value_or (written times m k) d ≡ s
      → value_or (header (apply times m r).headers k) d ≡ s
  texts r k d s n e = rw (header-apply_nine times m r k n) e

  -- A record reads back exactly the marks that were put on it, whatever marks it carried before,
  -- if the round is an `int` counted from 0 and the times are unset or whole seconds before the
  -- year 10000, which the time format reads back.
  pub read-apply : (r : Record) → read times (apply times m r) ≡ ok m
  unfolding read is_nine_header is_key bytes_eq
  read-apply r =
      let r' = apply times m r in
      let id =
        texts r header_event_id [] m.event_id refl
          (rw (written_event_id times m) (value_or-if m.event_id)) in
      let outcome =
        texts r header_outcome [] m.outcome refl
          (rw (written_outcome times m) (value_or-if m.outcome)) in
      let code =
        texts r header_failure_code [] m.failure_code refl (rw (written_failure_code times m)) in
      let topic =
        texts r header_source_topic r'.topic m.source_topic refl
          (rw (written_source_topic times m)) in
      rw (round-apply r, read_time-first r, read_time-parked r, id, outcome, code, topic)
