-- ===== src/Event/Failures.antt =====
-- How a record that does not decode is named: never by the text of its error.
use nine_core.Common.{
  All-map, ℕ, ◌+◌, List, [], ◌∷◌, ◌++◌, Option, none, some, Bool, true, false, Bool-cases, inl, inr,
  ◌⊎◌, Bytes, codes, bytes_eq, has_prefix, if◌then◌else◌, ◌≡◌, refl, All, length, ◌==◌,
}
use nine_core.Errors.{
  GoError, Cause, sentinel, opaque, Result, ok, err, ◌>>=◌, is_in, find_pg, has_net, has_connect,
  unknown_value, deadline_exceeded, canceled, plain, wrap,
}
use nine_core.Strconv.{decimal}
use nine_core.Event.{
  Parsers, agents, outcomes, index, index_from, sha256_bytes, of_width, decode_hex, in_step,
  kind_index, refuse_empty, decode, unknown_name, error_kinds,
}
use nine_core.Event.Outside.{has_unknown_value, decode-unknown_value, AreLocal}
use nine_core.Store.Classify.{failure_code, is_decode_failure}

-- A chain that names nothing but, perhaps, a value outside an enum: no context error, no error of
-- the server or of the connection.
abbrev IsLocal : List Cause → Type 0
IsLocal = All (λ c. (c ≡ opaque) ⊎ (c ≡ sentinel unknown_value))

-- What holds of every error of `Decode`.
abbrev IsDecodeError : GoError → Type 0
IsDecodeError e = (has_prefix e.text (codes "decode") ≡ true) × IsLocal e.chain

opaque-IsLocal : (cs : List Cause) → All (λ c. c ≡ opaque) cs → IsLocal cs
opaque-IsLocal = All-map _ _ (λ c q. inl q)

-- An error of a step is one of its first part or of the rest.
bind-err {ℓ} :
    {A B : Type 0} (Q : GoError → Type ℓ) (m : Result A) (f : A → Result B)
    → ((e : GoError) → m ≡ err e → Q e)
    → ((a : A) (e : GoError) → f a ≡ err e → Q e)
    → (e : GoError) → (m >>= f) ≡ err e
    → Q e
bind-err Q (ok a) f hm hf e h = hf a e h
bind-err Q (err e') f hm hf e h = hm e (cc)

-- A step of `Decode` names itself, and its name begins with `decode`.
step-IsDecodeError :
    {A : Type 0} (rest : Bytes) (m : Result A)
    → ((e : GoError) → m ≡ err e → IsLocal e.chain)
    → (e : GoError) → in_step (codes "decode" ++ rest) m ≡ err e
    → IsDecodeError e
unfolding has_prefix
step-IsDecodeError rest (ok a) k e h = cc
step-IsDecodeError rest (err e') k e h =
    let q : wrap (codes "decode" ++ rest ++ codes ": ") e' [] ≡ e = cc in
    rw (← q) (refl, (inl refl, k e' refl))

refuse_empty-IsDecodeError :
    (s rest : Bytes) (e : GoError)
    → refuse_empty s (codes "decode" ++ rest) ≡ err e
    → IsDecodeError e
unfolding has_prefix
refuse_empty-IsDecodeError [] rest e h =
    let q : plain (codes "decode" ++ rest) ≡ e = cc in rw (← q) (refl, (inl refl, tt))
refuse_empty-IsDecodeError (c ∷ s) rest e h = cc

index_from-IsLocal :
    (i : ℕ) (set : List Bytes) (v : Bytes) (e : GoError)
    → index_from i set v ≡ err e
    → IsLocal e.chain
unfolding index_from
index_from-IsLocal i [] v e h =
    let q : unknown_name v ≡ e = cc in rw (← q) (inl refl, (inr refl, tt))
index_from-IsLocal i (s ∷ set) v e h = elim (Bool-cases (bytes_eq s v)) [
  | inl b ↦ cc (rw b at h)
  | inr b ↦ index_from-IsLocal (i + 1) set v e (rw b at h)
]

index-IsLocal : (set : List Bytes) (v : Bytes) (e : GoError) → index set v ≡ err e → IsLocal e.chain
unfolding index
index-IsLocal set v e h = index_from-IsLocal 0 set v e h

kind_index-IsLocal : (v : Option Bytes) (e : GoError) → kind_index v ≡ err e → IsLocal e.chain
unfolding kind_index
kind_index-IsLocal none e h = cc
kind_index-IsLocal (some v) e h =
    bind-err (λ x. IsLocal x.chain) (index error_kinds v) (λ j. ok (some j))
      (index-IsLocal error_kinds v) (λ a x q. cc) e h

of_width-IsLocal :
    (x : Bytes) (d : Option Bytes) (e : GoError) → of_width x d ≡ err e → IsLocal e.chain
of_width-IsLocal x none e h = let q : plain x ≡ e = cc in rw (← q) (inl refl, tt)
of_width-IsLocal x (some b) e h = elim (Bool-cases (length b == 32)) [
  | inl t ↦ cc (rw t at h)
  | inr t ↦
      let q : plain (decimal (length b) ++ codes " bytes, want 32") ≡ e = cc (rw t at h) in
      rw (← q) (inl refl, tt)
]

sha256_bytes-IsLocal :
    (f : Bytes → Bytes) (s : Option Bytes) (e : GoError)
    → sha256_bytes f s ≡ err e
    → IsLocal e.chain
unfolding sha256_bytes
sha256_bytes-IsLocal f none e h = cc
sha256_bytes-IsLocal f (some s) e h = of_width-IsLocal (f s) (decode_hex s) e h

-- What `errors.Is` and `errors.As` find on such a chain.
abbrev IsSilent : List Cause → Type 0
IsSilent cs =
    (is_in deadline_exceeded cs ≡ false)
    × (is_in canceled cs ≡ false)
    × (find_pg cs ≡ none)
    × (has_net cs ≡ false)
    × (has_connect cs ≡ false)

IsLocal-IsSilent : (cs : List Cause) → IsLocal cs → IsSilent cs
unfolding is_in find_pg has_net has_connect
IsLocal-IsSilent [] k = (refl, refl, refl, refl, refl)
IsLocal-IsSilent (c ∷ cs) (inl e, k) = rw e (IsLocal-IsSilent cs k)
IsLocal-IsSilent (c ∷ cs) (inr e, k) = rw e (IsLocal-IsSilent cs k)

module _ (p : Parsers) (v : AreLocal p) where
  decode-IsDecodeError :
      (key text : Bytes) (e : GoError) → decode p key text ≡ err e → IsDecodeError e
  unfolding decode
  decode-IsDecodeError key text =
      bind-err IsDecodeError _ _
        (step-IsDecodeError [] (p.unmarshal text)
          (λ x q. opaque-IsLocal x.chain (v.unmarshal_local text x q)))
        λ w. bind-err IsDecodeError _ _ (refuse_empty-IsDecodeError key _) λ _.
          bind-err IsDecodeError _ _ (refuse_empty-IsDecodeError w.event_id _) λ _.
            bind-err IsDecodeError _ _
              (step-IsDecodeError (codes " occurred_at") (p.parse_time w.occurred_at)
                (λ x q. opaque-IsLocal x.chain (v.parse_time_local w.occurred_at x q)))
              λ at.
                bind-err IsDecodeError _ _
                  (step-IsDecodeError (codes " agent") (index agents w.agent)
                    (index-IsLocal agents w.agent))
                  λ agent.
                    bind-err IsDecodeError _ _
                      (step-IsDecodeError (codes " outcome") (index outcomes w.outcome)
                        (index-IsLocal outcomes w.outcome))
                      λ outcome.
                        bind-err IsDecodeError _ _
                          (step-IsDecodeError (codes " error_kind") (kind_index w.error_kind)
                            (kind_index-IsLocal w.error_kind))
                          λ kind.
                            bind-err IsDecodeError _ _
                              (step-IsDecodeError (codes " session_id")
                                (sha256_bytes p.hex_refusal w.session_id)
                                (sha256_bytes-IsLocal p.hex_refusal w.session_id))
                              λ session.
                                bind-err IsDecodeError _ _
                                  (step-IsDecodeError (codes " repo_hash")
                                    (sha256_bytes p.hex_refusal w.repo_hash)
                                    (sha256_bytes-IsLocal p.hex_refusal w.repo_hash))
                                  λ repo. λ e h. cc

  -- A record that does not decode is named `schema` if all that is read before its enum values is
  -- there and one of them lies outside its enum, and `decode` otherwise: whatever the error says.
  -- The errors of the JSON
  -- and the time parser wrap none of the program, the server or a connection, and the error is none
  -- that is safe to retry.
  pub failure_code-decode :
      (safe_to_retry : GoError → Bool) (key text : Bytes) (e : GoError)
      → decode p key text ≡ err e
      → safe_to_retry e ≡ false
      → failure_code safe_to_retry (some e)
        ≡ (if has_unknown_value p key text then codes "schema" else codes "decode")
  unfolding failure_code is_decode_failure
  failure_code-decode safe_to_retry key text e h unsafe =
      let (prefixed, local) = decode-IsDecodeError key text e h in
      let (a, b, c, d, f) = IsLocal-IsSilent e.chain local in
      let outside = decode-unknown_value p v key text e h in
      rw (a, b, c, d, f, unsafe, prefixed, ← outside)
