-- ===== src/Event/Outside.antt =====
-- internal/event/agent_run.go: the records that fail for a value outside an enum.
use nine_core.Common.{
  ℕ, ◌+◌, List, [], ◌∷◌, ◌++◌, Option, none, some, Bool, true, false, not, ◌&&◌, ◌||◌, Bool-cases,
  inl, inr, ◌⊎◌, length, ◌==◌, Bytes, codes, bytes_eq, ◌≡◌, refl, All,
}
use nine_core.Errors.{
  GoError, Cause, opaque, Result, ok, err, ◌>>=◌, Result-cases, errors_is, is_in, unknown_value,
  wrap, plain,
}
use nine_core.Strconv.{decimal}
use nine_core.Event.{
  refuse_empty, Wire, Parsers, agents, outcomes, error_kinds, index, index_from, sha256_bytes,
  kind_index, of_width, decode_hex, decode, unknown_name, in_step,
}

-- Whether an enum has a value.
abbrev holds : List Bytes → Bytes → Bool
holds [] v = false
holds (s ∷ set) v = bytes_eq s v || holds set v

abbrev holds_kind : Option Bytes → Bool
holds_kind none = true
holds_kind (some v) = holds error_kinds v

abbrev is_there : Bytes → Bool
is_there [] = false
is_there (c ∷ s) = true

abbrev is_ok : {A : Type 0} → Result A → Bool
is_ok (ok a) = true
is_ok (err e) = false

-- All that is read before the enum values is there, and one of them lies outside its enum.
abbrev is_outside : Parsers → Bytes → Wire → Bool
is_outside p key w =
    is_there key
    && (is_there w.event_id
        && (is_ok (p.parse_time w.occurred_at)
            && not (holds agents w.agent && (holds outcomes w.outcome && holds_kind w.error_kind))))

abbrev outside_of : Parsers → Bytes → Result Wire → Bool
outside_of p key (ok w) = is_outside p key w
outside_of p key (err e) = false

abbrev pub has_unknown_value : Parsers → Bytes → Bytes → Bool
has_unknown_value p key text = outside_of p key (p.unmarshal text)

-- The errors of the parsers wrap no error of a context, a server or a connection, and none that the
-- program declares.
pub record AreLocal (p : Parsers) : Type 0 where
  pub unmarshal_local :
      (text : Bytes) (e : GoError) → p.unmarshal text ≡ err e → All (λ c. c ≡ opaque) e.chain
  pub parse_time_local :
      (s : Bytes) (e : GoError) → p.parse_time s ≡ err e → All (λ c. c ≡ opaque) e.chain

-- What an index answers.
abbrev Indexes : Result ℕ → Bool → Bytes → Type 0
Indexes r b v = ((k : ℕ) × (r ≡ ok k) × (b ≡ true)) ⊎ (r ≡ err (unknown_name v)) × (b ≡ false)

index_from-Indexes :
    (i : ℕ) (set : List Bytes) (v : Bytes) → Indexes (index_from i set v) (holds set v) v
unfolding index_from
index_from-Indexes i [] v = inr (refl, refl)
index_from-Indexes i (s ∷ set) v = elim (Bool-cases (bytes_eq s v)) [
  | inl b ↦ rw b (inl (i, refl, refl))
  | inr b ↦ rw b (index_from-Indexes (i + 1) set v)
]

index-Indexes : (set : List Bytes) (v : Bytes) → Indexes (index set v) (holds set v) v
unfolding index
index-Indexes set v = index_from-Indexes 0 set v

opaque-is_in : (cs : List Cause) → All (λ c. c ≡ opaque) cs → is_in unknown_value cs ≡ false
unfolding is_in
opaque-is_in [] h = refl
opaque-is_in (c ∷ cs) (q, h) = rw q (opaque-is_in cs h)

-- Every error of a result wraps a value outside an enum, or none does.
abbrev Names : {A : Type 0} → Bool → Result A → Type 0
Names b r = (e : GoError) → r ≡ err e → errors_is e unknown_value ≡ b

module _ {B : Type 0} (step : Bytes) where
  enum-Names :
      (set : List Bytes) (v : Bytes) (b : Bool) (f : ℕ → Result B)
      → ((k : ℕ) → Names (not b) (f k))
      → Names (not (holds set v && b)) (in_step step (index set v) >>= f)
  unfolding is_in
  enum-Names set v b f g = elim (index-Indexes set v) [
    | inl (k, q, h) ↦ rw (q, h) (g k)
    | inr (q, h) ↦
        rw (q, h)
          (λ e z. let y : wrap (step ++ codes ": ") (unknown_name v) [] ≡ e = cc in rw (← y) refl)
  ]

  kind-Names :
      (v : Option Bytes) (f : Option ℕ → Result B)
      → ((k : Option ℕ) → Names false (f k))
      → Names (not (holds_kind v)) (in_step step (kind_index v) >>= f)
  unfolding is_in kind_index
  kind-Names none f g = g none
  kind-Names (some v) f g = elim (index-Indexes error_kinds v) [
    | inl (k, q, h) ↦ rw (q, h) (g (some k))
    | inr (q, h) ↦
        rw (q, h)
          (λ e z. let y : wrap (step ++ codes ": ") (unknown_name v) [] ≡ e = cc in rw (← y) refl)
  ]

  -- A step whose own errors are none of the program's.
  other-Names :
      {A : Type 0} (m : Result A) (f : A → Result B)
      → ((e : GoError) → m ≡ err e → is_in unknown_value e.chain ≡ false)
      → ((a : A) → Names false (f a))
      → Names false (in_step step m >>= f)
  unfolding is_in
  other-Names (ok a) f h g e z = g a e z
  other-Names (err x) f h g e z =
      let y : wrap (step ++ codes ": ") x [] ≡ e = cc in rw (← y) (h x refl)

  -- The same of a step in front of the enum values.
  before-Names :
      {A : Type 0} (m : Result A) (b : Bool) (f : A → Result B)
      → ((e : GoError) → m ≡ err e → is_in unknown_value e.chain ≡ false)
      → ((a : A) → Names b (f a))
      → Names (is_ok m && b) (in_step step m >>= f)
  unfolding is_in
  before-Names (ok a) b f h g e z = g a e z
  before-Names (err x) b f h g e z =
      let y : wrap (step ++ codes ": ") x [] ≡ e = cc in rw (← y) (h x refl)

ok-Names : {A : Type 0} (a : A) → Names false (ok a)
ok-Names a e z = cc

there-Names :
    {B : Type 0} (s why : Bytes) (b : Bool) (f : Unit {0} → Result B)
    → Names b (f tt)
    → Names (is_there s && b) (refuse_empty s why >>= f)
unfolding is_in
there-Names [] why b f g e z = let y : plain why ≡ e = cc in rw (← y) refl
there-Names (c ∷ s) why b f g e z = g e z

of_width-Names :
    (t : Bytes) (d : Option Bytes) (e : GoError)
    → of_width t d ≡ err e
    → is_in unknown_value e.chain ≡ false
unfolding is_in
of_width-Names t none e h = let q : plain t ≡ e = cc in rw (← q) refl
of_width-Names t (some b) e h = elim (Bool-cases (length b == 32)) [
  | inl t ↦ cc (rw t at h)
  | inr t ↦
      let q : plain (decimal (length b) ++ codes " bytes, want 32") ≡ e = cc (rw t at h) in
      rw (← q) refl
]

sha256_bytes-Names :
    (f : Bytes → Bytes) (s : Option Bytes) (e : GoError)
    → sha256_bytes f s ≡ err e
    → is_in unknown_value e.chain ≡ false
unfolding sha256_bytes
sha256_bytes-Names f none e h = cc
sha256_bytes-Names f (some s) e h = of_width-Names (f s) (decode_hex s) e h

module _ (p : Parsers) (v : AreLocal p) where
  pub decode-unknown_value :
      (key text : Bytes) → Names (has_unknown_value p key text) (decode p key text)
  unfolding decode is_in
  decode-unknown_value key text = elim (Result-cases (p.unmarshal text)) [
    | inr (x, q) ↦ rw q (λ e z.
        let y : wrap (codes "decode" ++ codes ": ") x [] ≡ e = cc in
        rw (← y) (opaque-is_in x.chain (v.unmarshal_local text x q)))
    | inl (w, q) ↦ rw q (
        there-Names key _ _ _ (
          there-Names w.event_id _ _ _ (
            before-Names (codes "decode occurred_at") (p.parse_time w.occurred_at) _ _
              (λ x z. opaque-is_in x.chain (v.parse_time_local w.occurred_at x z))
              (λ at.
                enum-Names (codes "decode agent") agents w.agent
                  (holds outcomes w.outcome && holds_kind w.error_kind) _
                  (λ agent.
                    enum-Names (codes "decode outcome") outcomes w.outcome (holds_kind w.error_kind)
                      _
                      (λ outcome. kind-Names (codes "decode error_kind") w.error_kind _ (λ kind.
                        other-Names (codes "decode session_id")
                          (sha256_bytes p.hex_refusal w.session_id) _
                          (sha256_bytes-Names p.hex_refusal w.session_id)
                          (λ session.
                            other-Names (codes "decode repo_hash")
                              (sha256_bytes p.hex_refusal w.repo_hash) _
                              (sha256_bytes-Names p.hex_refusal w.repo_hash)
                              (λ repo. ok-Names _)))))))))
  ]
