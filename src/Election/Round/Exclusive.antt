-- ===== src/Election/Round/Exclusive.antt =====
-- One node of election/manager.go never holds two replicas of one capsule as long as none of its
-- rounds fails.
use falak.Prelude.{
  ℕ, ◌≡◌, refl, ◌∙◌, sym, ap, subst, ◌⊎◌, inl, inr, true, false, List, [], ◌∷◌, Option, none, some,
  String, lookup, string_eq, pair_eq, ◌==◌, if◌then◌else◌, arith, Bool-cases, Option-cases,
  eq_of_beq, ne_of_beq, beq_refl,
}
use falak.Election.Types.{Request, Decision}
use falak.Election.Topic.{MessageKey}
use falak.Election.Round.{
  awaiting_verdict, Round, Node, new_node, Wake, key_of, is_running, has_local_claim, advance_in,
  wake_round, begin_round, request_round,
}
use falak.Election.Round.Moves.{advance-Move, begin-Move}
use falak.Election.Round.Slots.{
  holds, failed_at, HolderAt, Exclusive, Move, same, passed, took, released, broke, Succeeds,
  claims-same, claims-insert, claims-delete, lookup-moved_self, holder-moved, keyed-moved,
}

pub Move-Exclusive :
    (n n' : Node) (r : Round)
    → Exclusive n
    → Move n r n'
    → Succeeds n' (key_of r.request)
    → Exclusive n'
Move-Exclusive n n' r v (same e f) ok = record {
  keyed = λ key q h. v.keyed key q (sym (ap (lookup key) e) ∙ h);
  claimed = λ id key (q, h, c, d).
      claims-same n n' id f ∙ v.claimed id key (q, sym (ap (lookup key) e) ∙ h, c, d);
  unique = λ id j k (q, h, c, d) (q', h', c', d').
      v.unique id j k (q, sym (ap (lookup j) e) ∙ h, c, d) (q', sym (ap (lookup k) e) ∙ h', c', d');
}
Move-Exclusive n n' r v (passed p e f g) ok = record {
  keyed = keyed-moved n n' r p e v;
  claimed = λ id key a. claims-same n n' id f ∙ v.claimed id key (back id key a);
  unique = λ id j k a b. v.unique id j k (back id j a) (back id k b);
}
  where
    back : (id : String) (k : MessageKey) → HolderAt n' id k → HolderAt n id k
    back id k a = elim (holder-moved n n' r p e id k a) [
      | inr (d, b) ↦ b
      | inl (s, c, h) ↦
          subst (λ j. HolderAt n id j) s (subst (λ i. HolderAt n i (key_of r.request)) c (g h))
    ]
Move-Exclusive n n' r v (took p e f g) ok = record {
  keyed = keyed-moved n n' r p e v;
  claimed = λ id key a. claims-insert n n' r.request.capsule_id id f ∙ set id (still id key a);
  unique =
      λ id j k a b. joined id j k (holder-moved n n' r p e id j a) (holder-moved n n' r p e id k b);
}
  where
    New : String → MessageKey → Type 0
    New id k = (key_of r.request ≡ k) × (r.request.capsule_id ≡ id) × (holds p ≡ true)

    Old : String → MessageKey → Type 0
    Old id k = ((key_of r.request == k) ≡ false) × HolderAt n id k

    still :
        (id : String) (key : MessageKey)
        → HolderAt n' id key
        → (r.request.capsule_id ≡ id) ⊎ (has_local_claim n id ≡ true)
    still id key a = elim (holder-moved n n' r p e id key a) [
      | inl (s, c, h) ↦ inl c
      | inr (d, b) ↦ inr (v.claimed id key b)
    ]

    set :
        (id : String)
        → (r.request.capsule_id ≡ id) ⊎ (has_local_claim n id ≡ true)
        → (if r.request.capsule_id == id then true else has_local_claim n id) ≡ true
    set id (inl c) = rw (c, beq_refl id) refl
    set id (inr h) = rw h (ground arith)

    clash : (id : String) (k : MessageKey) → r.request.capsule_id ≡ id → HolderAt n id k → ⊥
    clash id k c b =
        let q : has_local_claim n id ≡ false = subst (λ i. has_local_claim n i ≡ false) c g in
        let t : has_local_claim n id ≡ true = v.claimed id k b in cc

    joined : (id : String) (j k : MessageKey) → New id j ⊎ Old id j → New id k ⊎ Old id k → j ≡ k
    joined id j k (inl (s, c, h)) (inl (s', c', h')) = sym s ∙ s'
    joined id j k (inl (s, c, h)) (inr (d, b)) = absurd (clash id k c b)
    joined id j k (inr (d, b)) (inl (s, c, h)) = absurd (clash id j c b)
    joined id j k (inr (d, a)) (inr (d', b)) = v.unique id j k a b
Move-Exclusive n n' r v (released p e f g a) ok = record {
  keyed = keyed-moved n n' r p e v;
  claimed = λ id key b.
      let (d, h) = old id key b in
      claims-delete n n' r.request.capsule_id id f (other id key d h) ∙ v.claimed id key h;
  unique = λ id j k b c. v.unique id j k (old id j b).1 (old id k c).1;
}
  where
    old :
        (id : String) (k : MessageKey)
        → HolderAt n' id k
        → ((key_of r.request == k) ≡ false) × HolderAt n id k
    old id k b = elim (holder-moved n n' r p e id k b) [
      | inl (s, c, h) ↦ let no : ⊥ = cc in absurd no
      | inr o ↦ o
    ]

    other :
        (id : String) (k : MessageKey)
        → (key_of r.request == k) ≡ false
        → HolderAt n id k
        → (r.request.capsule_id == id) ≡ false
    other id k d h = elim (Bool-cases (r.request.capsule_id == id)) [
      | inr q ↦ q
      | inl q ↦
          let c = eq_of_beq r.request.capsule_id id q in
          let both : key_of r.request ≡ k =
            v.unique id (key_of r.request) k (subst (λ i. HolderAt n i (key_of r.request)) c a) h in
          absurd (ne_of_beq (key_of r.request) k d both)
    ]
Move-Exclusive n n' r v (broke p e g) ok =
    let no : true ≡ false = sym g ∙ sym (ap failed_at (lookup-moved_self n n' r p e)) ∙ ok in
    let bad : ⊥ = cc in absurd bad

-- What happens at a node: a request with the strategy's decision, or a wait that ends.
pub data Event : Type 0 where
  requested : Request → Decision → Event
  woken : MessageKey → Wake → Event

unfoldable pub step : Node → ℕ → Event → Node
step n now (requested req decision) = request_round n req decision now
step n now (woken key wake) = wake_round n key wake now

unfoldable pub key_at : Event → MessageKey
key_at (requested req decision) = key_of req
key_at (woken key wake) = key

begin-Exclusive :
    (n : Node) (req : Request) (decision : Decision) (now : ℕ)
    → Exclusive n
    → Succeeds (begin_round n req decision now) (key_of req)
    → Exclusive (begin_round n req decision now)
begin-Exclusive n req decision now v ok =
    Move-Exclusive n (begin_round n req decision now)
      (record { request = req; decision = decision; phase = awaiting_verdict }) v
      (begin-Move n req decision now) ok

-- One event at a node, that does not fail the round it is for, keeps the claim slots exclusive: a
-- round that is publishing, in the tiebreak window or won has its capsule's slot marked, and no
-- other round of that capsule is.
pub step-Exclusive :
    (n : Node) (now : ℕ) (event : Event)
    → Exclusive n
    → Succeeds (step n now event) (key_at event)
    → Exclusive (step n now event)
unfolding step key_at request_round wake_round
step-Exclusive n now (requested req decision) v ok =
    requested_case (lookup (key_of req) n.rounds) refl
  where
    begun :
        request_round n req decision now ≡ begin_round n req decision now
        → Exclusive (request_round n req decision now)
    begun q =
        subst Exclusive (sym q)
          (begin-Exclusive n req decision now v (subst (λ m. Succeeds m (key_of req)) q ok))

    requested_case :
        (o : Option Round)
        → lookup (key_of req) n.rounds ≡ o
        → Exclusive (request_round n req decision now)
    requested_case none e = begun (rw (request_round, e) refl)
    requested_case (some r) e = elim (Bool-cases (is_running r)) [
      | inl h ↦ rw (request_round, e, h) v
      | inr h ↦ begun (rw (request_round, e, h) refl)
    ]
step-Exclusive n now (woken key wake) v ok = elim (Option-cases (lookup key n.rounds)) [
  | inl e ↦ rw (wake_round, e) v
  | inr (r, e) ↦
      let k : key_of r.request ≡ key = v.keyed key r e in
      let q : wake_round n key wake now ≡ advance_in r.phase n r wake now =
        rw (wake_round, e) refl in
      subst Exclusive (sym q) (
        Move-Exclusive n (advance_in r.phase n r wake now) r v
          (advance-Move n r wake now (ap (λ j. lookup j n.rounds) k ∙ e))
          (subst (Succeeds (advance_in r.phase n r wake now)) (sym k)
            (subst (λ m. Succeeds m key) q ok)))
]

unfoldable pub run : Node → List (ℕ × Event) → Node
unfolding step
run n [] = n
run n ((now, event) ∷ events) = run (step n now event) events

unfoldable pub AllSucceed : Node → List (ℕ × Event) → Type 0
unfolding step key_at
AllSucceed n [] = Unit
AllSucceed n ((now, event) ∷ events) =
    Succeeds (step n now event) (key_at event) × AllSucceed (step n now event) events

run-Exclusive :
    (n : Node) (events : List (ℕ × Event))
    → Exclusive n
    → AllSucceed n events
    → Exclusive (run n events)
unfolding run AllSucceed
run-Exclusive n [] v h = v
run-Exclusive n ((now, event) ∷ events) v (h, hs) =
    run-Exclusive (step n now event) events (step-Exclusive n now event v h) hs

new_node-Exclusive : (id : String) → Exclusive (new_node id)
unfolding new_node lookup
new_node-Exclusive id = record {
  keyed = λ key r e. let no : ⊥ = cc in absurd no;
  claimed = λ c key (r, e, p, h). let no : ⊥ = cc in absurd no;
  unique = λ c j k (r, e, p, h) b. let no : ⊥ = cc in absurd no;
}

-- However the rounds of a node interleave from its start, as long as no event fails the round it is
-- for, two rounds of one capsule that are publishing, in the tiebreak window or won are one round:
-- the node runs at most one replica of a capsule.
pub run-one_replica :
    (node id : String) (events : List (ℕ × Event)) (j k : MessageKey)
    → AllSucceed (new_node node) events
    → HolderAt (run (new_node node) events) id j
    → HolderAt (run (new_node node) events) id k
    → j ≡ k
run-one_replica node id events j k h a b =
    (run-Exclusive (new_node node) events (new_node-Exclusive node) h).unique id j k a b
