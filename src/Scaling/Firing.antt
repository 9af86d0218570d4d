-- ===== src/Scaling/Firing.antt =====
-- Which rule fires in capsule/scaling/evaluator.go, and for how long it then rests.
use falak.Prelude.{
  ℕ, ◌+◌, ◌≤◌, ◌≡◌, refl, ◌∙◌, sym, ap, subst, Bool, true, false, not, ◌&&◌, ◌||◌, List, [], ◌∷◌,
  Option, none, some, String, lookup, insert, lookup-insert_self, keep, all, string_eq, ◌==◌, ltb,
  arith, Bool-cases, inl, inr, eq_of_beq,
}
use falak.Scaling.{
  Rule, EvalResult, Evaluator, cooldown_key, is_in_cooldown, record_cooldown, evaluate_rule,
  evaluate,
}

module _ {F : Type 0} (lt eq : F → F → Bool) where
  -- A rule that has cooled down and whose conditions are met.
  abbrev pub is_ready : Evaluator → ℕ → String → (String → Option F) → Rule F → Bool
  is_ready e now id metrics r =
      not (is_in_cooldown e (cooldown_key id r.name) r.cooldown now)
      && evaluate_rule lt eq r metrics

  -- What the first of some rules leaves and reports.
  abbrev pub fired : Evaluator → ℕ → String → List (Rule F) → Evaluator × Option EvalResult
  fired e now id [] = (e, none)
  fired e now id (r ∷ rs) = (
    record_cooldown e (cooldown_key id r.name) now,
    some (record { rule_name = r.name; action = r.action; matched = true }),
  )

  -- The first rule, from the top, that has cooled down and whose conditions are met fires, and only
  -- its cooldown starts; where there is none nothing fires and nothing changes.
  pub evaluate_lem :
      (e : Evaluator) (now : ℕ) (id : String) (rules : List (Rule F)) (metrics : String → Option F)
      → evaluate lt eq e now id rules metrics
        ≡ fired e now id (keep (is_ready e now id metrics) rules)
  unfolding evaluate keep
  evaluate_lem e now id [] metrics = refl
  evaluate_lem e now id (r ∷ rs) metrics = ground (arith, evaluate_lem e now id rs metrics)

  abbrev pub is_named : String → Option EvalResult → Bool
  is_named name none = false
  is_named name (some r) = r.rule_name == name

  -- A rule of that name rests at that time when it last fired at `now`.
  abbrev pub rests : String → ℕ → ℕ → Rule F → Bool
  rests name now later r = not (r.name == name) || ltb later (now + r.cooldown)

  -- Where the key of the name was recorded at `now`, a rule that rests is in its cooldown.
  resting :
      (e : Evaluator) (id name : String) (now later : ℕ) (r : Rule F)
      → lookup (cooldown_key id name) e.cooldowns ≡ some now
      → now ≤ later
      → r.name ≡ name
      → ltb later (now + r.cooldown) ≡ true
      → is_in_cooldown e (cooldown_key id r.name) r.cooldown later ≡ true
  unfolding is_in_cooldown
  resting e id name now later r h le same l =
      subst (λ n. is_in_cooldown e (cooldown_key id n) r.cooldown later ≡ true) (sym same)
        (rw (is_in_cooldown, h) (ground arith))

  evaluate-rests :
      (e : Evaluator) (id name : String) (now later : ℕ) (rules : List (Rule F))
      (metrics : String → Option F)
      → lookup (cooldown_key id name) e.cooldowns ≡ some now
      → now ≤ later
      → all (rests name now later) rules ≡ true
      → is_named name (evaluate lt eq e later id rules metrics).1 ≡ false
  unfolding evaluate all
  evaluate-rests e id name now later [] metrics h le a = refl
  evaluate-rests e id name now later (r ∷ rs) metrics h le a = elim (Bool-cases (r.name == name)) [
    | inr n ↦ ground (arith, n, evaluate-rests e id name now later rs metrics h le)
    | inl n ↦
        let cold =
          resting e id name now later r h le (eq_of_beq r.name name n) (ground (arith, n, a)) in
        ground (arith, n, cold, evaluate-rests e id name now later rs metrics h le)
  ]

  recorded :
      (e : Evaluator) (now : ℕ) (id : String) (rules : List (Rule F)) (res : EvalResult)
      → (fired e now id rules).1 ≡ some res
      → lookup (cooldown_key id res.rule_name) (fired e now id rules).0.cooldowns ≡ some now
  unfolding record_cooldown
  recorded e now id [] res h = let no : ⊥ = cc in absurd no
  recorded e now id (r ∷ rs) res h =
      let same : r.name ≡ res.rule_name = cc in
      subst
        (λ n.
          lookup (cooldown_key id n) (insert (cooldown_key id r.name) now e.cooldowns) ≡ some now)
        same (lookup-insert_self (cooldown_key id r.name) now e.cooldowns)

  -- A rule that fired for a capsule does not fire for it again before its cooldown has passed: an
  -- evaluation that is not earlier, over rules of which each that bears its name still rests,
  -- whatever the metrics say, does not report that name.
  pub evaluate-cooldown :
      (e : Evaluator) (now later : ℕ) (id : String) (rules again : List (Rule F))
      (metrics metrics' : String → Option F) (res : EvalResult)
      → (evaluate lt eq e now id rules metrics).1 ≡ some res
      → now ≤ later
      → all (rests res.rule_name now later) again ≡ true
      → is_named res.rule_name
          (evaluate lt eq (evaluate lt eq e now id rules metrics).0 later id again metrics').1
        ≡ false
  evaluate-cooldown e now later id rules again metrics metrics' res h le a =
      let whole = evaluate_lem e now id rules metrics in
      let ready = keep (is_ready e now id metrics) rules in
      evaluate-rests (evaluate lt eq e now id rules metrics).0 id res.rule_name now later again
        metrics'
        (ap (λ r. lookup (cooldown_key id res.rule_name) r.0.cooldowns) whole
          ∙ recorded e now id ready res (sym (ap (λ r. r.1) whole) ∙ h))
        le a
