-- ===== src/Election/Topic/Handling.antt =====
-- What election/topic.go lets in (`handle`), and what its sweep leaves behind.
use falak.Prelude.{
  ℕ, ◌≡◌, refl, ◌≢◌, ◌∙◌, sym, ap, ◌⊎◌, inl, inr, Bool, true, false, List, [], ◌∷◌, Option, none,
  some, String, Map, lookup, UniqueKeys, string_eq, pair_eq, ◌==◌, is_nil, keep, arith, Bool-cases,
  Option-cases, eq_of_beq, ne_of_beq,
}
use falak.Signing.{Bytes, canonical_content}
use falak.Election.Types.{Claim, ElectionFailed}
use falak.Election.Topic.{
  Message, BufferedMessage, MessageKey, ClusterTopic, Envelope, queue_of, queue_at, dispatch,
  is_fresh, is_stale, is_signed, message_of, handle, sweep_entries, sweep_buffer,
}

module _ (unmarshal_claim : Bytes → Option Claim) (unmarshal_failed : Bytes → Option ElectionFailed)
    (verify : String → Bytes → Bytes → Bool) where
  -- An envelope that the topic's verifier is asked about either leaves the topic as it was, or it is
  -- another node's, is not stale, its signature over the canonical content verifies, and what the
  -- topic does is to dispatch the message that it holds.
  pub handle-cases :
      (t : ClusterTopic) (now : ℕ) (e : Envelope)
      → (handle unmarshal_claim unmarshal_failed (some verify) t now e ≡ t)
        ⊎ ((e.sender ≢ t.node_id)
            × (is_stale unmarshal_claim unmarshal_failed (some verify) now e ≡ false)
            × (verify e.sender (canonical_content e.content) e.signature ≡ true)
            × (msg : Message) × (message_of unmarshal_claim unmarshal_failed (some verify) e
                ≡ some msg)
            × (handle unmarshal_claim unmarshal_failed (some verify) t now e ≡ dispatch t now msg))
  unfolding handle is_signed
  handle-cases t now e = elim (Bool-cases (e.sender == t.node_id)) [
    | inl p ↦ inl (rw (handle, p) refl)
    | inr p ↦ elim (Bool-cases (is_stale unmarshal_claim unmarshal_failed (some verify) now e)) [
      | inl q ↦ inl (rw (handle, p, q) refl)
      | inr q ↦ elim (Bool-cases (verify e.sender (canonical_content e.content) e.signature)) [
        | inr s ↦ inl (rw (handle, p, q, s) refl)
        | inl s ↦
            elim (Option-cases (message_of unmarshal_claim unmarshal_failed (some verify) e)) [
              | inl m ↦ inl (rw (handle, p, q, s, m) refl)
              | inr (msg, m) ↦
                  inr (ne_of_beq e.sender t.node_id p, q, s, msg, m, rw (handle, p, q, s, m) refl)
            ]
      ]
    ]
  ]

is_nil-eq : (msgs : List BufferedMessage) → is_nil msgs ≡ true → msgs ≡ []
is_nil-eq [] h = refl
is_nil-eq (m ∷ ms) h = let no : ⊥ = cc in absurd no

sweep_entries-missing :
    (now : ℕ) (key : MessageKey) (m : Map MessageKey (List BufferedMessage))
    → lookup key m ≡ none
    → lookup key (sweep_entries now m) ≡ none
unfolding sweep_entries lookup
sweep_entries-missing now key [] h = refl
sweep_entries-missing now key ((k, msgs) ∷ m) h = elim (Bool-cases (k == key)) [
  | inl e ↦ let no : ⊥ = ground (arith, h, e) in absurd no
  | inr e ↦ ground (arith, e, sweep_entries-missing now key m)
]

sweep_entries_lem :
    (now : ℕ) (key : MessageKey) (m : Map MessageKey (List BufferedMessage))
    → UniqueKeys m
    → queue_of (lookup key (sweep_entries now m)) ≡ keep (is_fresh now) (queue_of (lookup key m))
unfolding sweep_entries lookup keep
sweep_entries_lem now key [] u = refl
sweep_entries_lem now key ((k, msgs) ∷ m) (u, us) = elim (Bool-cases (k == key)) [
  | inr e ↦ elim (Bool-cases (is_nil (keep (is_fresh now) msgs))) [
    | inl n ↦ rw (e, n) (sweep_entries_lem now key m us)
    | inr n ↦ rw (n, e) (sweep_entries_lem now key m us)
  ]
  | inl e ↦ elim (Bool-cases (is_nil (keep (is_fresh now) msgs))) [
    | inl n ↦
        rw (e, n, sweep_entries-missing now key m (missing e))
          (sym (is_nil-eq (keep (is_fresh now) msgs) n))
    | inr n ↦ rw (n, e) refl
  ]
]
  where
    missing : (k == key) ≡ true → lookup key m ≡ none
    missing e = ap (λ j. lookup j m) (sym (eq_of_beq k key e)) ∙ u

-- A sweep keeps, for every key and in order, the queued messages that are younger than the buffer's
-- lifetime, and those alone, when the map holds each key once.
pub sweep_buffer_lem :
    (t : ClusterTopic) (now : ℕ) (key : MessageKey)
    → UniqueKeys t.buffered
    → queue_at (sweep_buffer t now) key ≡ keep (is_fresh now) (queue_at t key)
unfolding sweep_buffer queue_at
sweep_buffer_lem t now key u = sweep_entries_lem now key t.buffered u
