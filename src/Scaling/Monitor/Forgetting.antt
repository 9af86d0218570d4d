-- ===== src/Scaling/Monitor/Forgetting.antt =====
-- What `Unregister` of capsule/scaling/monitor.go leaves of a capsule.
use text.Mathlib.Text.{starts_with}
use text.Mathlib.TextPositions.{starts_with-append}
use Prim.Native.String.{◌++◌}
use falak.Prelude.{
  ℕ, ◌≡◌, false, [], ◌∷◌, none, String, Map, lookup, lookup-delete_self, string_eq, ◌==◌, eq_of_beq,
  ap, Bool-cases, inl, inr, arith, if◌then◌else◌,
}
use falak.Scaling.{cooldown_key, is_in_cooldown}
use falak.Scaling.Monitor.{Monitor, drop_keys, reset_all_cooldowns, unregister}

-- Dropping the keys with a prefix drops those and no others.
lookup-drop_keys :
    {V : Type 0} (key prefix : String) (m : Map String V)
    → lookup key (drop_keys prefix m) ≡ (if starts_with key prefix then none else lookup key m)
unfolding drop_keys lookup
lookup-drop_keys key prefix [] = ground arith
lookup-drop_keys key prefix ((other, v) ∷ m) = elim (Bool-cases (other == key)) [
  | inl same ↦
      let ih = lookup-drop_keys key prefix m in
      let starts = ap (λ k. starts_with k prefix) (eq_of_beq other key same) in
      ground (arith, same, starts, ih)
  | inr differs ↦ ground (arith, differs, lookup-drop_keys key prefix m)
]

-- After `Unregister` the capsule is no longer evaluated and none of its rules is in a cooldown,
-- whatever its name and its cooldown, while a key of a cooldown that does not start with the
-- capsule's id and a colon keeps its time.
pub unregister_lem :
    {F : Type 0} (m : Monitor F) (id : String)
    → (lookup id (unregister m id).capsules ≡ none)
      × ((name : String) (cooldown now : ℕ)
          → is_in_cooldown (unregister m id).evaluator (cooldown_key id name) cooldown now ≡ false)
      × ((key : String)
          → starts_with key (id ++ ":") ≡ false
          → lookup key (unregister m id).evaluator.cooldowns ≡ lookup key m.evaluator.cooldowns)
unfolding unregister reset_all_cooldowns is_in_cooldown cooldown_key
unregister_lem m id = (
  lookup-delete_self id m.capsules,
  λ name cooldown now. ground (
    arith,
    lookup-drop_keys ((id ++ ":") ++ name) (id ++ ":") m.evaluator.cooldowns,
    starts_with-append (id ++ ":") name,
  ),
  λ key h. rw (lookup-drop_keys key (id ++ ":") m.evaluator.cooldowns, h),
)
