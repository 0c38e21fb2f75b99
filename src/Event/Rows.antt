-- ===== src/Event/Rows.antt =====
-- What a decoded row is worth: every index names the value that was sent, every hash is 32 bytes.
use nine_core.Common.{
  ℕ, suc, ◌+◌, ◌*◌, ◌<◌, List, [], ◌∷◌, Option, none, some, Bool-cases, inl, inr, Bytes, codes,
  bytes_eq, bytes_eq→eq, ◌==◌, ==_iff, length, ◌≡◌, ◌≢◌, refl, sym, ap, arith, All, get_elem?,
}
use nine_core.Errors.{Result, ok, err, ◌>>=◌, bind-ok}
use nine_core.Event.{
  Wire, AgentRun, Parsers, agents, outcomes, error_kinds, index, index_from, sha256_bytes, of_width,
  decode_hex, hex_value, hex_pair, in_step, kind_index, refuse_empty, decode, no_key, no_id,
}

-- An index that is found names the value, counted from where the loop started.
index_from_sound :
    (i : ℕ) (set : List Bytes) (v : Bytes) (k : ℕ)
    → index_from i set v ≡ ok k
    → (j : ℕ) × (k ≡ i + j) × (get_elem? set j ≡ some v)
unfolding index_from
index_from_sound i [] v k h = cc
index_from_sound i (s ∷ set) v k h = elim (Bool-cases (bytes_eq s v)) [
  | inl e ↦ (0, ground arith, ap some (bytes_eq→eq s v e))
  | inr e ↦ let (j, q, g) = index_from_sound (i + 1) set v k (rw e at h) in (suc j, omega arith, g)
]

index_sound : (set : List Bytes) (v : Bytes) (k : ℕ) → index set v ≡ ok k → get_elem? set k ≡ some v
unfolding index
index_sound set v k h =
    let (j, q, g) = index_from_sound 0 set v k h in let e : k ≡ j = omega arith in rw e g

-- Every byte of a decoded text is a byte.
hex_value-lt : (c v : ℕ) → hex_value c ≡ some v → v < 16
unfolding hex_value
hex_value-lt c v h = ground arith

abbrev AreBytes : Bytes → Type 0
AreBytes = All (λ c. c < 256)

hex_pair-AreBytes :
    (a b : Option ℕ) (r : Option Bytes) (out : Bytes)
    → ((v : ℕ) → a ≡ some v → v < 16)
    → ((v : ℕ) → b ≡ some v → v < 16)
    → ((s : Bytes) → r ≡ some s → AreBytes s)
    → hex_pair a b r ≡ some out
    → AreBytes out
hex_pair-AreBytes (some x) (some y) (some s) out la lb lr h =
    let e : (x * 16 + y) ∷ s ≡ out = cc in
    let lx = la x refl in let ly = lb y refl in rw (← e) (omega arith, lr s refl)
hex_pair-AreBytes (some x) (some y) none out la lb lr h = cc
hex_pair-AreBytes (some x) none r out la lb lr h = cc
hex_pair-AreBytes none b r out la lb lr h = cc

decode_hex-AreBytes : (s b : Bytes) → decode_hex s ≡ some b → AreBytes b
unfolding decode_hex
decode_hex-AreBytes [] b h = let e : [] ≡ b = cc in rw (← e) tt
decode_hex-AreBytes (a ∷ []) b h = cc
decode_hex-AreBytes (x ∷ y ∷ s) b h =
    hex_pair-AreBytes (hex_value x) (hex_value y) (decode_hex s) b (hex_value-lt x) (hex_value-lt y)
      (decode_hex-AreBytes s) h

-- A stored hash is absent, or has 32 bytes.
abbrev pub IsHash : Option Bytes → Type 0
IsHash none = Unit {0}
IsHash (some b) = (length b ≡ 32) × AreBytes b

of_width-IsHash :
    (x : Bytes) (d h : Option Bytes)
    → ((b : Bytes) → d ≡ some b → AreBytes b)
    → of_width x d ≡ ok h
    → IsHash h
of_width-IsHash x none h k e = cc
of_width-IsHash x (some b) h k e = elim (Bool-cases (length b == 32)) [
  | inl t ↦ let q : some b ≡ h = cc (rw t at e) in rw (← q) ((==_iff (length b) 32).0 t, k b refl)
  | inr t ↦ cc (rw t at e)
]

sha256_bytes-IsHash : (f : Bytes → Bytes) (s h : Option Bytes) → sha256_bytes f s ≡ ok h → IsHash h
unfolding sha256_bytes
sha256_bytes-IsHash f none h e = let q : none ≡ h = cc in rw (← q) tt
sha256_bytes-IsHash f (some s) h e =
    of_width-IsHash (f s) (decode_hex s) h (decode_hex-AreBytes s) e

-- A step that succeeded hands its result to the rest of a proof.
step-ok {ℓ κ} :
    {A : Type 0} {B : Type ℓ} {P : Type κ} (step : Bytes) (m : Result A) (f : A → Result B) {b : B}
    → (in_step step m >>= f) ≡ ok b
    → ((a : A) → m ≡ ok a → f a ≡ ok b → P)
    → P
step-ok step (ok a) f h k = k a refl h
step-ok step (err e) f h k = cc

refuse_empty-eq-ok : (s why : Bytes) (u : Unit {0}) → refuse_empty s why ≡ ok u → s ≢ []
refuse_empty-eq-ok [] why u h = cc
refuse_empty-eq-ok (c ∷ s) why u h = λ e. cc

-- The stored error kind names the one that was sent, and is absent if none was.
abbrev pub Names : Option Bytes → Option ℕ → Type 0
Names none k = k ≡ none
Names (some v) none = ⊥
Names (some v) (some i) = get_elem? error_kinds i ≡ some v

kind_index-Names : (v : Option Bytes) (k : Option ℕ) → kind_index v ≡ ok k → Names v k
unfolding kind_index
kind_index-Names none k h = let e : none ≡ k = cc in sym e
kind_index-Names (some v) k h =
    bind-ok (index error_kinds v) (λ j. ok (some j)) h
      (λ i found q. let e : some i ≡ k = cc in rw (← e) (index_sound error_kinds v i found))

-- The row of a payload, its parts given.
abbrev pub row : Bytes → Wire → ℕ → ℕ → ℕ → Option ℕ → Option Bytes → Option Bytes → AgentRun
row key w at agent outcome kind session repo = record {
  tenant = key;
  event_id = w.event_id;
  occurred_at = at;
  agent = agent;
  agent_version = w.agent_version;
  session_id = session;
  repo_hash = repo;
  duration_ms = w.duration_ms;
  outcome = outcome;
  error_kind = kind;
  model = w.model;
  tokens_in = w.tokens_in;
  tokens_out = w.tokens_out;
  cost_micros = w.cost_micros;
  files_touched = w.files_touched;
  lines_added = w.lines_added;
  lines_removed = w.lines_removed;
  tool_calls = w.tool_calls;
}

module _ (p : Parsers) where
  -- Where the parts of a decoded row come from.
  pub record Parts (key text : Bytes) (r : AgentRun) : Type 0 where
    pub wire : Wire
    pub at : ℕ
    pub agent : ℕ
    pub outcome : ℕ
    pub kind : Option ℕ
    pub session : Option Bytes
    pub repo : Option Bytes
    pub unmarshalled : p.unmarshal text ≡ ok wire
    keyed : key ≢ []
    identified : wire.event_id ≢ []
    pub agent_named : get_elem? agents agent ≡ some wire.agent
    pub outcome_named : get_elem? outcomes outcome ≡ some wire.outcome
    pub kind_named : Names wire.error_kind kind
    pub session_hash : IsHash session
    pub repo_hash : IsHash repo
    pub is_row : r ≡ row key wire at agent outcome kind session repo

  pub decode-Parts : (key text : Bytes) (r : AgentRun) → decode p key text ≡ ok r → Parts key text r
  unfolding decode
  decode-Parts key text r h = step-ok (codes "decode") (p.unmarshal text) _ h λ w hw h1.
      bind-ok (refuse_empty key no_key) _ h1 λ u1 k1 h2.
        bind-ok (refuse_empty w.event_id no_id) _ h2 λ u2 k2 h3.
          step-ok (codes "decode occurred_at") (p.parse_time w.occurred_at) _ h3 λ at k3 h4.
            step-ok (codes "decode agent") (index agents w.agent) _ h4 λ agent k4 h5.
              step-ok (codes "decode outcome") (index outcomes w.outcome) _ h5 λ outcome k5 h6.
                step-ok (codes "decode error_kind") (kind_index w.error_kind) _ h6 λ kind k6 h7.
                  step-ok (codes "decode session_id") (sha256_bytes p.hex_refusal w.session_id) _ h7
                    λ session k7 h8.
                      step-ok (codes "decode repo_hash") (sha256_bytes p.hex_refusal w.repo_hash) _
                        h8
                        λ repo k8 h9. record {
                          wire = w;
                          at = at;
                          agent = agent;
                          outcome = outcome;
                          kind = kind;
                          session = session;
                          repo = repo;
                          unmarshalled = hw;
                          keyed = refuse_empty-eq-ok key no_key u1 k1;
                          identified = refuse_empty-eq-ok w.event_id no_id u2 k2;
                          agent_named = index_sound agents w.agent agent k4;
                          outcome_named = index_sound outcomes w.outcome outcome k5;
                          kind_named = kind_index-Names w.error_kind kind k6;
                          session_hash = sha256_bytes-IsHash p.hex_refusal w.session_id session k7;
                          repo_hash = sha256_bytes-IsHash p.hex_refusal w.repo_hash repo k8;
                          is_row = cc;
                        }

  -- A record that decodes carries a tenant and an event id. Its row has the tenant of the key, the
  -- id of the payload, indices that name the agent, the outcome and the error kind that were sent,
  -- and hashes of 32 bytes or none.
  pub decode_sound :
      (key text : Bytes) (r : AgentRun)
      → decode p key text ≡ ok r
      → (w : Wire) × (p.unmarshal text ≡ ok w)
        × (r.tenant ≡ key)
        × (key ≢ [])
        × (r.event_id ≡ w.event_id)
        × (w.event_id ≢ [])
        × (get_elem? agents r.agent ≡ some w.agent)
        × (get_elem? outcomes r.outcome ≡ some w.outcome)
        × Names w.error_kind r.error_kind
        × IsHash r.session_id
        × IsHash r.repo_hash
  decode_sound key text r h =
      let d = decode-Parts key text r h in
      rw d.is_row (
        d.wire, d.unmarshalled, refl, d.keyed, refl, d.identified, d.agent_named, d.outcome_named,
        d.kind_named, d.session_hash, d.repo_hash,
      )
