-- ===== src/Store/Retention.antt =====
-- internal/store/retention.go: the values of a retention run.
pub mod Weeks
pub mod Run
mod Tests
use nine_core.Common.{
  ℕ, zero, suc, ◌+◌, ◌-◌, ◌*◌, ◌/◌, ◌%◌, ◌^◌, List, [], ◌∷◌, ◌++◌, Option, none, some, Bool, true,
  false, not, Bytes, codes, bytes_eq, ◌==◌, ltb, if◌then◌else◌, ◌&&◌, ℤ, pos, negsuc, natural,
  int_limit,
}
use nine_core.Errors.{
  GoError, Result, ok, err, of_sentinel, wrap, plain, errors_is, no_rows, keep_inside_horizon,
  clock_ahead, week_returned, pending_detach_elsewhere, labelled,
}
use nine_core.Store.Partition.{PartitionSpan, with_defaults, week}
use nine_core.Store.Session.{
  connect, set_timeout, try_lock, unlock, read_clock, find_default, find_unfinished,
  list_partitions, find_pending, open_record, detach, count, fill_record, drop_table, stamp, Row,
  Unfinished, Database, Session, D, ◌>>=◌, give, ask, query, refuse_default,
}

-- The value of an `int64` computation.
abbrev pub wrapped : ℕ → ℤ
wrapped n =
    let m = n % (2 * int_limit) in if ltb m int_limit then pos m else negsuc (2 * int_limit - 1 - m)

abbrev pub floor : PartitionSpan → ℤ
floor s = wrapped (natural (with_defaults s).behind * week)

abbrev pub below : ℕ → ℤ → Bool
below keep (pos f) = ltb keep f
below keep (negsuc f) = false

pub record Dropped : Type 0 where
  pub name : Bytes
  pub range_start : ℕ
  pub range_end : ℕ
  pub rows : ℕ
  pub counted : Bool

pub record Candidate : Type 0 where
  pub name : Bytes
  pub from : ℕ
  pub to : ℕ
  pub detach_is_pending : Bool

-- The rest of a text behind a prefix.
unfoldable pub after : Bytes → Bytes → Option Bytes
after [] s = some s
after (a ∷ p) [] = none
after (a ∷ p) (b ∷ s) = if a == b then after p s else none

-- The longest beginning without an apostrophe, and what follows it.
unfoldable pub quoted : Bytes → Bytes × Bytes
quoted [] = ([], [])
quoted (c ∷ s) = let q = quoted s in if c == 39 then ([], c ∷ s) else (c ∷ q.0, q.1)

abbrev second_bound : Bytes → Bytes × Bytes → Option (Bytes × Bytes)
second_bound a ([], rest) = none
second_bound a (c ∷ b, rest) = if bytes_eq rest (codes "')") then some (a, c ∷ b) else none

abbrev first_bound : Bytes × Bytes → Option (Bytes × Bytes)
first_bound ([], rest) = none
first_bound (c ∷ a, rest) = elim (after (codes "') TO ('") rest) [
  | none ↦ none
  | some s ↦ second_bound (c ∷ a) (quoted s)
]

-- `boundsRE`: the two captures.
unfoldable pub captures : Bytes → Option (Bytes × Bytes)
unfolding after quoted bytes_eq
captures s = elim (after (codes "FOR VALUES FROM ('") s) [
  | none ↦ none
  | some t ↦ first_bound (quoted t)
]

-- The oldest first, by the lower bound.
unfoldable pub insert_by_from : Candidate → List Candidate → List Candidate
insert_by_from c [] = c ∷ []
insert_by_from c (x ∷ xs) = if ltb x.from c.from then x ∷ insert_by_from c xs else c ∷ x ∷ xs

-- `indexOf` and the move to the front.
unfoldable pub take_out : Bytes → List Candidate → Option (Candidate × List Candidate)
unfolding bytes_eq
take_out n [] = none
take_out n (c ∷ cs) =
    let rest = take_out n cs in
    if bytes_eq c.name n
    then some (c, cs)
    else elim rest [ none ↦ none | some (x, xs) ↦ some (x, c ∷ xs) ]

abbrev unreadable_bounds : Bytes → GoError
unreadable_bounds s = plain (codes "retention: cannot read partition bounds " ++ s)

abbrev unreadable_bound : Bytes → Bytes → GoError
unreadable_bound which s =
    wrap (codes "retention: " ++ (which ++ (codes " bound " ++ (s ++ codes ": "))))
      (plain (codes "neither a whole hour nor a half hour offset")) []

abbrev pub opened : Bytes → Result ℕ → Result ℕ
opened n (ok id) = ok id
opened n (err e) =
    if errors_is e no_rows
    then err (
        wrap []
          (of_sentinel week_returned
            (codes "a week that was already dropped is in the table again"))
          (codes ": " ++ (n ++ codes ", dropped once already and recreated since")))
    else err (wrap (codes "retention: record " ++ (n ++ codes ": ")) e [])

-- `time.Parse` of the standard library, under the two layouts.
abbrev whole_hours : Bytes
whole_hours = codes "2006-01-02 15:04:05-07"

abbrev half_hours : Bytes
half_hours = codes "2006-01-02 15:04:05-07:00"

module _ (parse : Bytes → Bytes → Option ℕ) where
  unfoldable pub parse_bound : Bytes → Option ℕ
  parse_bound s = elim (parse whole_hours s) [ some t ↦ some t | none ↦ parse half_hours s ]

  abbrev both : Bytes → Bytes → Option ℕ → Option ℕ → Result (ℕ × ℕ)
  both a b none to = err (unreadable_bound (codes "lower") a)
  both a b (some f) none = err (unreadable_bound (codes "upper") b)
  both a b (some f) (some t) = ok (f, t)

  unfoldable pub parse_bounds : Bytes → Result (ℕ × ℕ)
  unfolding captures parse_bound
  parse_bounds s = elim (captures s) [
    | none ↦ err (unreadable_bounds s)
    | some (a, b) ↦ both a b (parse_bound a) (parse_bound b)
  ]

  abbrev pub as_candidate : Row → ℕ × ℕ → Candidate
  as_candidate r b = record { name = r.name; from = b.0; to = b.1; detach_is_pending = r.pending }

  abbrev add_past : ℕ → Row → Result (ℕ × ℕ) → Result (List Candidate) → Result (List Candidate)
  add_past boundary r (err e) rest = err e
  add_past boundary r (ok b) (err e) = err e
  add_past boundary r (ok b) (ok cs) =
      ok (if ltb boundary b.1 then cs else insert_by_from (as_candidate r b) cs)

  -- The partitions wholly past the boundary, the oldest first; a bound that cannot be read is an
  -- error, wherever it stands.
  unfoldable pub past_rows : ℕ → List Row → Result (List Candidate)
  unfolding parse_bounds insert_by_from
  past_rows boundary [] = ok []
  past_rows boundary (r ∷ rs) = add_past boundary r (parse_bounds r.bounds) (past_rows boundary rs)
