-- ===== src/Retry/Marks/Others.antt =====
-- internal/retry/marks.go: the headers that are no marks, after `Apply`.
use nine_core.Common.{
  List, [], ◌∷◌, Option, none, some, Bool, true, false, not, Bytes, bytes_eq, bytes_eq→eq, ◌==◌,
  Bool-cases, All, All-append, inl, inr, map, ◌≡◌, refl, ◌∙◌, arith,
}
use nine_core.Kafka.{Record, Header}
use nine_core.Retry.Marks.{Marks, TimeText, header, keep, headers_of, apply, mark_if}
use nine_core.Retry.Marks.Vocabulary.{
  is_key, is_nine_header, header_event_id, header_outcome, header_first_failed_at, header_parked_at,
}
use nine_core.Retry.Marks.Apply.{first, header-append}

-- Every header of a list is a mark.
abbrev AllNine : List Header → Type 0
AllNine = All (λ h. is_nine_header h.key ≡ true)

mark_if-AllNine : (b : Bool) (k v : Bytes) → is_nine_header k ≡ true → AllNine (mark_if b k v)
mark_if-AllNine true k v n = (n, tt)
mark_if-AllNine false k v n = tt

headers_of-AllNine : (times : TimeText) (m : Marks) → AllNine (headers_of times m)
unfolding headers_of is_nine_header is_key bytes_eq
headers_of-AllNine times m =
    All-append _ (mark_if (not (bytes_eq m.event_id [])) header_event_id m.event_id) _
      (mark_if-AllNine _ header_event_id _ refl)
      (
        refl,
        (
          refl,
          (
            refl,
            All-append _ (mark_if (not (bytes_eq m.outcome [])) header_outcome m.outcome) _
                (mark_if-AllNine _ header_outcome _ refl)
                (All-append _ (mark_if (not (m.first_failed_at == 0)) header_first_failed_at _) _
                  (mark_if-AllNine _ header_first_failed_at _ refl)
                  (mark_if-AllNine _ header_parked_at _ refl)),
          ),
        ),
      )

module _ (k : Bytes) (n : is_nine_header k ≡ false) where
  ne_nine : (h : Bytes) → is_nine_header h ≡ true → bytes_eq h k ≡ false
  ne_nine h nine = elim (Bool-cases (bytes_eq h k)) [
    | inl e ↦ absurd (clash (bytes_eq→eq h k e))
    | inr e ↦ e
  ]
    where
      clash : h ≡ k → ⊥
      clash e = let b : is_nine_header k ≡ true = rw e at nine in cc

  header-AllNine : (hs : List Header) → AllNine hs → header hs k ≡ none
  unfolding header
  header-AllNine [] a = refl
  header-AllNine (h ∷ hs) (nine, a) = rw (ne_nine h.key nine) (header-AllNine hs a)

  is_key-AllNine :
      (hs : List Header) → AllNine hs → is_key k (map (λ (h : Header). h.key) hs) ≡ false
  unfolding is_key
  is_key-AllNine [] a = refl
  is_key-AllNine (h ∷ hs) (nine, a) = rw (ne_nine h.key nine) (is_key-AllNine hs a)

  header-keep_other :
      (mine : List Bytes) (hs : List Header)
      → is_key k mine ≡ false
      → header (keep mine hs) k ≡ header hs k
  unfolding header keep
  header-keep_other mine [] c = refl
  header-keep_other mine (h ∷ hs) c = elim (Bool-cases (bytes_eq h.key k)) [
    | inl e ↦
        let key = bytes_eq→eq h.key k e in
        let a : is_nine_header h.key ≡ false = rw key n in
        let b : is_key h.key mine ≡ false = rw key c in ground arith
    | inr e ↦ ground (arith, header-keep_other mine hs c)
  ]

-- Every header that is no mark reads as it did before the marks were put on.
pub header-apply_other :
    (times : TimeText) (m : Marks) (r : Record) (k : Bytes)
    → is_nine_header k ≡ false
    → header (apply times m r).headers k ≡ header r.headers k
unfolding apply
header-apply_other times m r k n =
    let nine = headers_of-AllNine times m in
    let mine = map (λ (h : Header). h.key) (headers_of times m) in
    header-append (keep mine r.headers) (headers_of times m) k
    ∙ rw
        (
          header-AllNine k n _ nine,
          header-keep_other k n mine r.headers (is_key-AllNine k n _ nine),
        )
        (first_none (header r.headers k))
  where
    first_none : (o : Option Bytes) → first o none ≡ o
    first_none none = refl
    first_none (some v) = refl
