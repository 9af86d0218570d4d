-- ===== src/Election/Round/Slots.antt =====
-- The local claim slots of election/manager.go: who holds one, and what a step can do to it.
use falak.Prelude.{
  ◌≡◌, refl, ◌∙◌, sym, ap, ◌⊎◌, inl, inr, Bool, true, false, Option, none, some, String, lookup,
  insert, delete, lookup-insert, lookup-insert_self, lookup-insert_other, lookup-delete, string_eq,
  pair_eq, ◌==◌, if◌then◌else◌, Bool-cases, eq_of_beq,
}
use falak.Election.Types.{won, failed}
use falak.Election.Topic.{MessageKey}
use falak.Election.Round.{
  Phase, publishing, in_tiebreak, finished, Round, Node, key_of, has_local_claim,
}

-- A round that has taken its capsule's slot: publishing, in the tiebreak window, or won.
abbrev pub holds : Phase → Bool
holds (publishing at) = true
holds in_tiebreak = true
holds (finished (won w s)) = true
holds _ = false

abbrev pub has_failed : Phase → Bool
has_failed (finished (failed why)) = true
has_failed _ = false

-- The round at `key` holds the slot of the capsule `id`.
abbrev pub HolderAt : Node → String → MessageKey → Type 0
HolderAt n id key =
    (r : Round) × (lookup key n.rounds ≡ some r)
    × (r.request.capsule_id ≡ id)
    × (holds r.phase ≡ true)

pub record Exclusive (n : Node) : Type 0 where
  pub keyed : (key : MessageKey) (r : Round) → lookup key n.rounds ≡ some r → key_of r.request ≡ key
  pub claimed : (id : String) (key : MessageKey) → HolderAt n id key → has_local_claim n id ≡ true
  pub unique : (id : String) (j k : MessageKey) → HolderAt n id j → HolderAt n id k → j ≡ k

-- What one step does to a round and to its capsule's slot when it does not fail.
pub data Move (n : Node) (r : Round) (n' : Node) : Type 0 where
  same : n'.rounds ≡ n.rounds → n'.local_claims ≡ n.local_claims → Move n r n'
  passed :
      (p : Phase)
      → n'.rounds ≡ insert (key_of r.request) (record r { phase = p }) n.rounds
      → n'.local_claims ≡ n.local_claims
      → (holds p ≡ true → HolderAt n r.request.capsule_id (key_of r.request))
      → Move n r n'
  took :
      (p : Phase)
      → n'.rounds ≡ insert (key_of r.request) (record r { phase = p }) n.rounds
      → n'.local_claims ≡ insert r.request.capsule_id true n.local_claims
      → has_local_claim n r.request.capsule_id ≡ false
      → Move n r n'
  released :
      (p : Phase)
      → n'.rounds ≡ insert (key_of r.request) (record r { phase = p }) n.rounds
      → n'.local_claims ≡ delete r.request.capsule_id n.local_claims
      → holds p ≡ false
      → HolderAt n r.request.capsule_id (key_of r.request)
      → Move n r n'
  broke :
      (p : Phase)
      → n'.rounds ≡ insert (key_of r.request) (record r { phase = p }) n.rounds
      → has_failed p ≡ true
      → Move n r n'

abbrev pub failed_at : Option Round → Bool
failed_at none = false
failed_at (some r) = has_failed r.phase

-- The node after a step that did not fail the round at `key`.
abbrev pub Succeeds : Node → MessageKey → Type 0
Succeeds n key = failed_at (lookup key n.rounds) ≡ false

pub claims-same :
    (n n' : Node) (id : String)
    → n'.local_claims ≡ n.local_claims
    → has_local_claim n' id ≡ has_local_claim n id
unfolding has_local_claim
claims-same n n' id e = ap (λ m. has_local_claim (record n { local_claims = m }) id) e

pub claims-insert :
    (n n' : Node) (held id : String)
    → n'.local_claims ≡ insert held true n.local_claims
    → has_local_claim n' id ≡ (if held == id then true else has_local_claim n id)
unfolding has_local_claim
claims-insert n n' held id e =
    claims-same (record n { local_claims = insert held true n.local_claims }) n' id e ∙ inserted
  where
    inserted :
        has_local_claim (record n { local_claims = insert held true n.local_claims }) id
        ≡ (if held == id then true else has_local_claim n id)
    inserted = elim (Bool-cases (held == id)) [
      | inl h ↦ rw (has_local_claim, lookup-insert held id true n.local_claims, h) refl
      | inr h ↦ rw (has_local_claim, lookup-insert held id true n.local_claims, h) refl
    ]

pub claims-delete :
    (n n' : Node) (held id : String)
    → n'.local_claims ≡ delete held n.local_claims
    → (held == id) ≡ false
    → has_local_claim n' id ≡ has_local_claim n id
unfolding has_local_claim
claims-delete n n' held id e h =
    claims-same (record n { local_claims = delete held n.local_claims }) n' id e ∙ deleted
  where
    deleted :
        has_local_claim (record n { local_claims = delete held n.local_claims }) id
        ≡ has_local_claim n id
    deleted = rw (has_local_claim, lookup-delete held id n.local_claims, h) refl

module _ (n n' : Node) (r : Round) (p : Phase)
    (moved : n'.rounds ≡ insert (key_of r.request) (record r { phase = p }) n.rounds) where
  pub lookup-moved_self : lookup (key_of r.request) n'.rounds ≡ some (record r { phase = p })
  lookup-moved_self =
      rw moved (lookup-insert_self (key_of r.request) (record r { phase = p }) n.rounds)

  lookup-moved_other :
      (k : MessageKey) → (key_of r.request == k) ≡ false → lookup k n'.rounds ≡ lookup k n.rounds
  lookup-moved_other k h =
      rw moved (lookup-insert_other (key_of r.request) k (record r { phase = p }) n.rounds h)

  -- A round after the step is the one that moved, or an old one.
  round-moved :
      (k : MessageKey) (q : Round)
      → lookup k n'.rounds ≡ some q
      → ((key_of r.request ≡ k) × (q ≡ record r { phase = p }))
        ⊎ (((key_of r.request == k) ≡ false) × (lookup k n.rounds ≡ some q))
  round-moved k q e = elim (Bool-cases (key_of r.request == k)) [
    | inr h ↦ inr (h, sym (lookup-moved_other k h) ∙ e)
    | inl h ↦
        let same = eq_of_beq (key_of r.request) k h in
        inl (
          same,
          some-inj q (record r { phase = p })
              (sym e ∙ ap (λ j. lookup j n'.rounds) (sym same) ∙ lookup-moved_self),
        )
  ]
    where
      some-inj : (a b : Round) → some a ≡ some b → a ≡ b
      some-inj a b h = cc

  pub holder-moved :
      (id : String) (k : MessageKey)
      → HolderAt n' id k
      → ((key_of r.request ≡ k) × (r.request.capsule_id ≡ id) × (holds p ≡ true))
        ⊎ (((key_of r.request == k) ≡ false) × HolderAt n id k)
  holder-moved id k (q, e, c, h) = elim (round-moved k q e) [
    | inr (d, f) ↦ inr (d, (q, f, c, h))
    | inl (s, g) ↦
        inl (s, sym (ap (λ x. x.request.capsule_id) g) ∙ c, sym (ap (λ x. holds x.phase) g) ∙ h)
  ]

  pub keyed-moved :
      Exclusive n
      → (key : MessageKey) (q : Round) → lookup key n'.rounds ≡ some q
      → key_of q.request ≡ key
  keyed-moved v key q e = elim (round-moved key q e) [
    | inr (d, f) ↦ v.keyed key q f
    | inl (s, g) ↦ ap (λ x. key_of x.request) g ∙ s
  ]
