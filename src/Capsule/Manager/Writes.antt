-- ===== src/Capsule/Manager/Writes.antt =====
-- The operations of capsule/manager.go that write a capsule without firing a trigger keep the cache
-- and the lifecycles in step.
use falak.Prelude.{
  ℕ, ◌≡◌, refl, ◌∙◌, sym, ◌⊎◌, inl, inr, Bool, true, [], none, some, String, Map, lookup, insert,
  delete, has, is_nil, ◌==◌, string_eq, arith, Bool-cases, Option-cases,
}
use falak.Capsule.Types.{created, status_valid}
use falak.Capsule.Lifecycle.{Engine, announce, Lifecycle, new_lifecycle}
use falak.Capsule.Store
use falak.Capsule.Store.{Store, StoreError, Capsule, db_fails}
use falak.Spec.Records.{CapsuleSpec}
use falak.Spec.Defaults.{default_spec}
use falak.Spec.Validation.{validate_spec}
use falak.Capsule.Manager.{
  Manager, EventType, capsule_created, capsule_deleted, capsule_updated, capsule_received, poke,
  assign_slot, assign_replica, update, delete_capsule, received_new, receive, emit,
}
use falak.Capsule.Manager.Firing.{create}
use falak.Capsule.Manager.Agreement.{
  AgreeOn, InStep, Agree-insert, Agree-delete, Agree-capsule, lifecycle_of,
}
use falak.Capsule.Manager.Steps.{agree-update, agree-poke, agree-updated, get-lookup, fire-InStep}

-- The cache after `store.Create` and after `store.Delete`.
create-cases :
    (s : Store) (now : ℕ) (written : Bool) (c : Capsule)
    → ((Store.create s now written c).0 ≡ s) × has (Store.create s now written c).1 ≡ true
      ⊎ ((Store.create s now written c).0 ≡ record s {
        capsules = insert c.id (record c { created_at = now; updated_at = now }) s.capsules;
      })
        × ((Store.create s now written c).1 ≡ none)
unfolding Store.create
create-cases s now written c = ground arith

remove-cases :
    (s : Store) (written : Bool) (id : String)
    → ((Store.remove s written id).0 ≡ s) × has (Store.remove s written id).1 ≡ true
      ⊎ ((Store.remove s written id).0 ≡ record s { capsules = delete id s.capsules })
        × ((Store.remove s written id).1 ≡ none)
unfolding Store.remove
remove-cases s written id = ground arith

-- A write of the spec or of the replicas of a known capsule.
agree-rewrite :
    (m : Manager) (id : String) (now : ℕ) (written : Bool) (c c' : Capsule)
    → InStep m
    → lookup id m.store.capsules ≡ some c
    → c'.id ≡ c.id
    → c'.status ≡ c.status
    → AgreeOn (Store.update (poke m.store id c') now written c').0.capsules m.lifecycles
agree-rewrite m id now written c c' v e i st =
    let (l, q, a) = lifecycle_of m.store.capsules m.lifecycles id c v.agree e in
    agree-poke m.store m.lifecycles id now written c' (i ∙ a.0)
      (Agree-capsule m.store.capsules m.lifecycles id c c' v.agree e i st)

agree-emit :
    (m : Manager) (now : ℕ) (kind : EventType) (c : Capsule)
    → AgreeOn m.store.capsules m.lifecycles
    → InStep (emit m now kind c)
unfolding emit
agree-emit m now kind c h = record { agree = h }

pub update-InStep :
    (m : Manager) (now : ℕ) (written : Bool) (id : String) (spec : CapsuleSpec)
    → InStep m
    → InStep (update m now written id spec).0
unfolding update
update-InStep m now written id spec v =
    elim (Bool-cases (is_nil (validate_spec (default_spec spec)))) [
      | inr e ↦ rw (update, e) v
      | inl e ↦ elim (Option-cases (lookup id m.store.capsules)) [
        | inl f ↦ rw (update, e, get-lookup m.store id ∙ f) v
        | inr (c, f) ↦
            let c' = record c { spec = default_spec spec; updated_at = now } in
            rw (update, e, get-lookup m.store id ∙ f)
              (agree-updated m now capsule_updated c'
                (Store.update (poke m.store id c') now written c')
                (agree-rewrite m id now written c c' v f refl refl))
      ]
    ]

pub assign_replica-InStep :
    (m : Manager) (now : ℕ) (written : Bool) (id rid node : String)
    → InStep m
    → InStep (assign_replica m now written id rid node).0
unfolding assign_replica
assign_replica-InStep m now written id rid node v =
    elim (Option-cases (lookup id m.store.capsules)) [
      | inl f ↦ rw (assign_replica, get-lookup m.store id ∙ f) v
      | inr (c, f) ↦
          let c' = record c { replicas = assign_slot c.replicas rid node now; updated_at = now } in
          rw (assign_replica, get-lookup m.store id ∙ f)
            (record { agree = agree-rewrite m id now written c c' v f refl refl })
    ]

pub delete_capsule-InStep :
    (m : Manager) (now : ℕ) (written : Bool) (id : String)
    → InStep m
    → InStep (delete_capsule m now written id).0
unfolding delete_capsule
delete_capsule-InStep m now written id v = elim (Option-cases (lookup id m.store.capsules)) [
  | inl f ↦ rw (delete_capsule, get-lookup m.store id ∙ f) v
  | inr (c, f) ↦ elim (remove-cases m.store written id) [
    | inr (e, g) ↦
        rw (delete_capsule, get-lookup m.store id ∙ f, g, e)
          (agree-emit
            (record m {
              store = record m.store { capsules = delete id m.store.capsules };
              lifecycles = delete id m.lifecycles;
            })
            now capsule_deleted c (Agree-delete m.store.capsules m.lifecycles id v.agree))
    | inl (e, g) ↦ elim (Option-cases (Store.remove m.store written id).1) [
      | inl h ↦ let no : ⊥ = cc in absurd no
      | inr (err, h) ↦
          rw (delete_capsule, get-lookup m.store id ∙ f, h) (record { agree = rw e v.agree })
    ]
  ]
]

-- A capsule that enters the cache and the lifecycles together.
agree-enter :
    (s : Store) (ls : Map String Lifecycle) (now : ℕ) (c : Capsule)
    → AgreeOn s.capsules ls
    → status_valid c.status ≡ true
    → AgreeOn
        (insert c.id (record c { created_at = now; updated_at = now }) s.capsules)
        (insert c.id (new_lifecycle c.id c.status) ls)
unfolding new_lifecycle
agree-enter s ls now c h ok =
    Agree-insert s.capsules ls c.id (record c { created_at = now; updated_at = now })
      (new_lifecycle c.id c.status) h (refl, refl, rw ok refl, ok)

pub received_new-InStep :
    (m : Manager) (now : ℕ) (c : Capsule)
    → InStep m
    → status_valid c.status ≡ true
    → InStep (
        received_new m now
          (record c { created_at = now; updated_at = now })
          (record m.store {
            capsules =
                insert c.id (record c { created_at = now; updated_at = now }) m.store.capsules;
          }))
unfolding received_new
received_new-InStep m now c v ok =
    rw ok (agree-emit _ now capsule_received _ (agree-enter m.store m.lifecycles now c v.agree ok))

pub receive-InStep_new :
    (m : Manager) (now : ℕ) (written : Bool) (c : Capsule)
    → InStep m
    → lookup c.id m.store.capsules ≡ none
    → status_valid c.status ≡ true
    → InStep (receive m now written c).0
unfolding receive
receive-InStep_new m now written c v f ok = elim (create-cases m.store now written c) [
  | inr (e, g) ↦ rw (receive, get-lookup m.store c.id ∙ f, g, e) (received_new-InStep m now c v ok)
  | inl (e, g) ↦ elim (Option-cases (Store.create m.store now written c).1) [
    | inl h ↦ let no : ⊥ = cc in absurd no
    | inr (err, h) ↦ rw (receive, get-lookup m.store c.id ∙ f, h) (record { agree = rw e v.agree })
  ]
]

pub receive-InStep_known :
    (m : Manager) (now : ℕ) (written : Bool) (c old : Capsule)
    → InStep m
    → lookup c.id m.store.capsules ≡ some old
    → c.status ≡ old.status
    → InStep (receive m now written c).0
unfolding receive
receive-InStep_known m now written c old v f st =
    let (l, q, a) = lifecycle_of m.store.capsules m.lifecycles c.id old v.agree f in
    rw (receive, get-lookup m.store c.id ∙ f)
      (agree-updated m now capsule_received (record c { updated_at = now })
        (Store.update m.store now written c)
        (agree-update m.store m.lifecycles now written c old v.agree f (sym a.0) st))

pub create-InStep :
    (engine : Engine) (m : Manager) (now : ℕ) (stored announced_written : Bool)
    (id cluster_id : String) (spec : CapsuleSpec)
    → InStep m
    → InStep (create engine m now stored announced_written id cluster_id spec).0
unfolding create status_valid
create-InStep engine m now stored announced_written id cluster_id spec v =
    elim (Bool-cases (cluster_id == "")) [
      | inl e ↦ rw (create, e) v
      | inr e ↦ elim (Bool-cases (is_nil (validate_spec (default_spec spec)))) [
        | inr f ↦ rw (create, e, f) v
        | inl f ↦ elim (create-cases m.store now stored new) [
          | inr (g, h) ↦
              rw (create, e, f, h, g)
                (fire-InStep engine _ now announced_written id announce (
                  agree-emit _ now capsule_created new
                    (agree-enter m.store m.lifecycles now new v.agree refl)))
          | inl (g, h) ↦ elim (Option-cases (Store.create m.store now stored new).1) [
            | inl i ↦ let no : ⊥ = cc in absurd no
            | inr (err, i) ↦ rw (create, e, f, i) (record { agree = rw g v.agree })
          ]
        ]
      ]
    ]
  where
    new : Capsule
    new = record {
      id = id;
      cluster_id = cluster_id;
      spec = default_spec spec;
      status = created;
      replicas = [];
      momentum = record {
        current = (default_spec spec).momentum_config.base;
        base = (default_spec spec).momentum_config.base;
        last_adjusted = now;
      };
      version = "1";
      created_at = now;
      updated_at = now;
    }
