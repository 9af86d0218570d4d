-- ===== src/Election/Round/Moves.antt =====
-- Each stretch of a round of election/manager.go is one of the moves of a round.
use falak.Prelude.{
  ℕ, ◌≡◌, refl, ap, inl, inr, Bool, true, false, not, none, some, String, lookup, string_eq,
  pair_eq, ltb, if◌then◌else◌, Bool-cases,
}
use falak.Election.Types.{Request, Decision, Outcome, won, lost, failed, is_better}
use falak.Election.Round.{
  Phase, awaiting_verdict, awaiting_publish, publishing, in_tiebreak, panicked, finished, Round,
  Node, Wake, cancelled, claims_closed, failures_closed, publish_due, deadline_passed,
  tiebreak_over, rival, remote_failure, publish_result, key_of, has_local_claim,
  release_capsule_claim, try_claim_capsule, put_phase, report, reserve, on_publish_wait,
  on_published, on_tiebreak, on_verdict_wait, advance_in, begin_round,
}
use falak.Election.Round.Slots.{holds, HolderAt, Move, same, passed, took, released, broke}

report-Move :
    (n : Node) (r : Round) (o : Outcome)
    → (holds (finished o) ≡ true → HolderAt n r.request.capsule_id (key_of r.request))
    → Move n r (report n r o)
unfolding report release_capsule_claim put_phase
report-Move n r (failed why) h = broke (finished (failed why)) refl refl
report-Move n r (won w s) h = passed (finished (won w s)) refl refl h
report-Move n r (lost w s) h = passed (finished (lost w s)) refl refl h

none-held :
    (n : Node) (r : Round) (b : Bool)
    → b ≡ false
    → b ≡ true
    → HolderAt n r.request.capsule_id (key_of r.request)
none-held n r b e h = let no : ⊥ = cc in absurd no

lost-Move : (n : Node) (r : Round) (w : String) (s : ℕ) → Move n r (report n r (lost w s))
lost-Move n r w s = report-Move n r (lost w s) (none-held n r false refl)

failed-Move : (n : Node) (r : Round) (why : String) → Move n r (report n r (failed why))
failed-Move n r why = report-Move n r (failed why) (none-held n r false refl)

-- A phase without the slot.
pub idle-Move : (n : Node) (r : Round) (p : Phase) → holds p ≡ false → Move n r (put_phase n r p)
unfolding put_phase
idle-Move n r p h = passed p refl refl (none-held n r (holds p) h)

pub reserve-Move : (n : Node) (r : Round) (now : ℕ) → Move n r (reserve n r now)
unfolding reserve try_claim_capsule put_phase
reserve-Move n r now = elim (Bool-cases (has_local_claim n r.request.capsule_id)) [
  | inl h ↦ rw (reserve, h) (idle-Move n r awaiting_verdict refl)
  | inr h ↦ rw (reserve, h) (took (publishing now) refl refl h)
]

module _ (n : Node) (r : Round) where
  pub on_verdict_wait-Move : (wake : Wake) → Move n r (on_verdict_wait n r wake)
  unfolding on_verdict_wait
  on_verdict_wait-Move cancelled = failed-Move n r _
  on_verdict_wait-Move (rival claim) = lost-Move n r _ _
  on_verdict_wait-Move claims_closed = failed-Move n r _
  on_verdict_wait-Move (remote_failure f) = failed-Move n r _
  on_verdict_wait-Move deadline_passed = failed-Move n r _
  on_verdict_wait-Move failures_closed = same refl refl
  on_verdict_wait-Move publish_due = same refl refl
  on_verdict_wait-Move tiebreak_over = same refl refl
  on_verdict_wait-Move (publish_result e) = same refl refl

  pub on_publish_wait-Move : (wake : Wake) (now : ℕ) → Move n r (on_publish_wait n r wake now)
  unfolding on_publish_wait
  on_publish_wait-Move cancelled now = failed-Move n r _
  on_publish_wait-Move (remote_failure f) now = failed-Move n r _
  on_publish_wait-Move (rival claim) now =
      elim (Bool-cases (is_better claim r.decision n.node_id)) [
        | inl b ↦ rw b (lost-Move n r claim.node_id claim.gravity_score)
        | inr b ↦ rw b (reserve-Move n r now)
      ]
  on_publish_wait-Move publish_due now = reserve-Move n r now
  on_publish_wait-Move deadline_passed now = failed-Move n r _
  on_publish_wait-Move claims_closed now = idle-Move n r panicked refl
  on_publish_wait-Move failures_closed now = idle-Move n r panicked refl
  on_publish_wait-Move tiebreak_over now = same refl refl
  on_publish_wait-Move (publish_result e) now = same refl refl

  module _ (holder : HolderAt n r.request.capsule_id (key_of r.request)) where
    pub on_published-Move : (at : ℕ) (wake : Wake) → Move n r (on_published n r at wake)
    unfolding on_published report release_capsule_claim put_phase
    on_published-Move at (publish_result (some err)) = broke _ refl refl
    on_published-Move at (publish_result none) = passed in_tiebreak refl refl (λ h. holder)
    on_published-Move at _ = same refl refl

    pub on_tiebreak-Move : (wake : Wake) → Move n r (on_tiebreak n r wake)
    unfolding on_tiebreak report release_capsule_claim put_phase
    on_tiebreak-Move cancelled = failed-Move n r _
    on_tiebreak-Move (rival claim) = elim (Bool-cases (is_better claim r.decision n.node_id)) [
      | inl b ↦
          rw b (released (finished (lost claim.node_id claim.gravity_score)) refl refl refl holder)
      | inr b ↦ rw b (same refl refl)
    ]
    on_tiebreak-Move tiebreak_over = report-Move n r (won n.node_id r.decision.score) (λ h. holder)
    on_tiebreak-Move claims_closed = idle-Move n r panicked refl
    on_tiebreak-Move _ = same refl refl

  pub advance-Move :
      (wake : Wake) (now : ℕ)
      → lookup (key_of r.request) n.rounds ≡ some r
      → Move n r (advance_in r.phase n r wake now)
  unfolding advance_in
  advance-Move wake now e = at r.phase refl
    where
      at : (p : Phase) → r.phase ≡ p → Move n r (advance_in p n r wake now)
      at awaiting_verdict h = on_verdict_wait-Move wake
      at awaiting_publish h = on_publish_wait-Move wake now
      at (publishing t) h = on_published-Move (r, e, refl, ap holds h) t wake
      at in_tiebreak h = on_tiebreak-Move (r, e, refl, ap holds h) wake
      at panicked h = same refl refl
      at (finished o) h = same refl refl

branch-Move :
    (n : Node) (r : Round) (b : Bool) (x y : Node)
    → Move n r x
    → Move n r y
    → Move n r (if b then x else y)
branch-Move n r true x y h k = h
branch-Move n r false x y h k = k

pub begin-Move :
    (n : Node) (req : Request) (decision : Decision) (now : ℕ)
    → Move n
        (record { request = req; decision = decision; phase = awaiting_verdict })
        (begin_round n req decision now)
unfolding begin_round
begin-Move n req decision now =
    branch-Move n new (not decision.eligible) _ _ (idle-Move n new awaiting_verdict refl) (
      branch-Move n new (has_local_claim n req.capsule_id) _ _
        (idle-Move n new awaiting_verdict refl)
        (branch-Move n new (ltb now decision.publish_at) _ _ (idle-Move n new awaiting_publish refl)
          (reserve-Move n new now)))
  where
    new : Round
    new = record { request = req; decision = decision; phase = awaiting_verdict }
