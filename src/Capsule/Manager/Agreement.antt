-- ===== src/Capsule/Manager/Agreement.antt =====
-- The cache and the lifecycles of capsule/manager.go agree: what this says, and how it is kept when
-- the entries of one capsule change.
use falak.Prelude.{
  ◌≡◌, refl, ◌∙◌, sym, ap, subst, true, Option, none, some, String, Map, lookup, insert, delete,
  lookup-insert, lookup-delete, lookup-insert_other, ◌==◌, string_eq, Bool-cases, inl, inr,
  eq_of_beq,
}
use falak.Capsule.Types.{status_valid}
use falak.Capsule.Lifecycle.{Lifecycle}
use falak.Capsule.Store.{Capsule}
use falak.Capsule.Manager.{Manager}

-- The entries of one ID: both are missing, or they are of that ID, and the state machine stands at
-- the status of the capsule, a valid one.
abbrev pub Agree : String → Option Capsule → Option Lifecycle → Type 0
Agree k none none = Unit
Agree k (some c) (some l) =
    (c.id ≡ k) × (l.capsule_id ≡ k) × (l.machine ≡ c.status) × (status_valid c.status ≡ true)
Agree k _ _ = ⊥

abbrev pub AgreeOn : Map String Capsule → Map String Lifecycle → Type 0
AgreeOn cs ls = (k : String) → Agree k (lookup k cs) (lookup k ls)

pub record InStep (m : Manager) : Type 0 where
  pub agree : AgreeOn m.store.capsules m.lifecycles

module _ (cs : Map String Capsule) (ls : Map String Lifecycle) (id : String) where
  pub Agree-insert :
      (c : Capsule) (l : Lifecycle)
      → AgreeOn cs ls
      → Agree id (some c) (some l)
      → AgreeOn (insert id c cs) (insert id l ls)
  Agree-insert c l h a k = elim (Bool-cases (id == k)) [
    | inl e ↦
        rw (lookup-insert id k c cs, lookup-insert id k l ls, e)
          (subst (λ j. Agree j (some c) (some l)) (eq_of_beq id k e) a)
    | inr e ↦ rw (lookup-insert_other id k c cs e, lookup-insert_other id k l ls e) (h k)
  ]

  pub Agree-delete : AgreeOn cs ls → AgreeOn (delete id cs) (delete id ls)
  Agree-delete h k = elim (Bool-cases (id == k)) [
    | inl e ↦ rw (lookup-delete id k cs, lookup-delete id k ls, e) tt
    | inr e ↦ rw (lookup-delete id k cs, lookup-delete id k ls, e) (h k)
  ]

  -- The capsule alone changes, and keeps its ID and status.
  pub Agree-capsule :
      (c c' : Capsule)
      → AgreeOn cs ls
      → lookup id cs ≡ some c
      → c'.id ≡ c.id
      → c'.status ≡ c.status
      → AgreeOn (insert id c' cs) ls
  Agree-capsule c c' h e i s k = elim (Bool-cases (id == k)) [
    | inl q ↦
        rw (lookup-insert id k c' cs, q)
          (moved k (lookup k ls) (subst (λ o. Agree k o (lookup k ls)) (same k q) (h k)))
    | inr q ↦ rw (lookup-insert_other id k c' cs q) (h k)
  ]
    where
      same : (k : String) → (id == k) ≡ true → lookup k cs ≡ some c
      same k q = ap (λ j. lookup j cs) (sym (eq_of_beq id k q)) ∙ e

      moved : (k : String) (o : Option Lifecycle) → Agree k (some c) o → Agree k (some c') o
      moved k none a = a
      moved k (some l) (p, q, r, v) = (i ∙ p, q, r ∙ sym s, rw s v)

  -- The lifecycle alone changes, and keeps its ID and state.
  pub Agree-lifecycle :
      (l l' : Lifecycle)
      → AgreeOn cs ls
      → lookup id ls ≡ some l
      → l'.capsule_id ≡ l.capsule_id
      → l'.machine ≡ l.machine
      → AgreeOn cs (insert id l' ls)
  Agree-lifecycle l l' h e i s k = elim (Bool-cases (id == k)) [
    | inl q ↦
        rw (lookup-insert id k l' ls, q)
          (moved k (lookup k cs) (subst (λ o. Agree k (lookup k cs) o) (same k q) (h k)))
    | inr q ↦ rw (lookup-insert_other id k l' ls q) (h k)
  ]
    where
      same : (k : String) → (id == k) ≡ true → lookup k ls ≡ some l
      same k q = ap (λ j. lookup j ls) (sym (eq_of_beq id k q)) ∙ e

      moved : (k : String) (o : Option Capsule) → Agree k o (some l) → Agree k o (some l')
      moved k none a = a
      moved k (some c) (p, q, r, v) = (p, i ∙ q, s ∙ r, v)

  -- A lifecycle comes with its capsule, and a capsule with its lifecycle.
  pub capsule_of :
      (l : Lifecycle)
      → AgreeOn cs ls
      → lookup id ls ≡ some l
      → (c : Capsule) × (lookup id cs ≡ some c) × Agree id (some c) (some l)
  capsule_of l h e = go (lookup id cs) refl (subst (λ o. Agree id (lookup id cs) o) e (h id))
    where
      go :
          (o : Option Capsule)
          → lookup id cs ≡ o
          → Agree id (lookup id cs) (some l)
          → (c : Capsule) × (lookup id cs ≡ some c) × Agree id (some c) (some l)
      go none q a = absurd (subst (λ o. Agree id o (some l)) q a)
      go (some c) q a = (c, q, subst (λ o. Agree id o (some l)) q a)

  pub lifecycle_of :
      (c : Capsule)
      → AgreeOn cs ls
      → lookup id cs ≡ some c
      → (l : Lifecycle) × (lookup id ls ≡ some l) × Agree id (some c) (some l)
  lifecycle_of c h e = go (lookup id ls) refl (subst (λ o. Agree id o (lookup id ls)) e (h id))
    where
      go :
          (o : Option Lifecycle)
          → lookup id ls ≡ o
          → Agree id (some c) (lookup id ls)
          → (l : Lifecycle) × (lookup id ls ≡ some l) × Agree id (some c) (some l)
      go none q a = absurd (subst (λ o. Agree id (some c) o) q a)
      go (some l) q a = (l, q, subst (λ o. Agree id (some c) o) q a)
