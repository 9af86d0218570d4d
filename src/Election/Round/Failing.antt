-- ===== src/Election/Round/Failing.antt =====
-- What a failing round of election/manager.go does to the rounds around it.
use falak.Prelude.{
  ℕ, ◌≡◌, refl, ◌∙◌, ap, false, some, lookup, lookup-insert_other, lookup-delete_self, string_eq,
  pair_eq, ◌==◌,
}
use falak.Election.Topic.{MessageKey}
use falak.Election.Round.{
  Phase, awaiting_verdict, Round, Node, deadline_passed, key_of, has_local_claim,
  release_capsule_claim, put_phase, report, on_verdict_wait, advance_in, wake_round,
}

wake-found :
    (n : Node) (key : MessageKey) (r : Round) (p : Phase) (now : ℕ)
    → lookup key n.rounds ≡ some r
    → r.phase ≡ p
    → wake_round n key deadline_passed now ≡ advance_in p n r deadline_passed now
unfolding wake_round
wake-found n key r p now e h = rw (wake_round, e) (ap (λ q. advance_in q n r deadline_passed now) h)

-- A round that waits for another node's verdict holds no claim slot, yet when its deadline passes
-- its capsule's slot is free, whichever round held it, and every other round stays as it was.
pub deadline-frees_slot :
    (n : Node) (key other : MessageKey) (r : Round) (now : ℕ)
    → lookup key n.rounds ≡ some r
    → key_of r.request ≡ key
    → r.phase ≡ awaiting_verdict
    → (key == other) ≡ false
    → (has_local_claim (wake_round n key deadline_passed now) r.request.capsule_id ≡ false)
      × (lookup other (wake_round n key deadline_passed now).rounds ≡ lookup other n.rounds)
unfolding advance_in on_verdict_wait report release_capsule_claim put_phase has_local_claim
deadline-frees_slot n key other r now e k h d =
    rw
      (
        wake-found n key r awaiting_verdict now e h,
        advance_in,
        has_local_claim,
        lookup-delete_self r.request.capsule_id n.local_claims,
      )
      (refl, lookup-insert_other (key_of r.request) other _ n.rounds (ap (λ j. j == other) k ∙ d))
