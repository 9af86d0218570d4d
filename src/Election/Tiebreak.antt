-- ===== src/Election/Tiebreak.antt =====
-- The tiebreak of election/manager.go between two nodes that both published.
use falak.Prelude.{
  ℕ, ◌≤◌, ◌<◌, ◌≡◌, sym, ◌≢◌, true, false, not, String, string_ltb-total, string_ltb-asym, nat_eq,
  arith,
}
use falak.Election.Types.{Request, Decision, is_better, claim_of}

-- When two different nodes have each published at the very time that their decisions named, exactly
-- one of the two claims beats the other.
pub is_better-exactly_one :
    (r : Request) (a b : String) (ours theirs : Decision)
    → a ≢ b
    → is_better (claim_of r a ours ours.publish_at) theirs b
      ≡ not (is_better (claim_of r b theirs theirs.publish_at) ours a)
unfolding is_better claim_of
is_better-exactly_one r a b ours theirs h = ground (arith, string_ltb-total b a (λ e. h (sym e)))

-- Two claims published no earlier than their decisions named never beat each other both: at most
-- one of two nodes steps aside for the other.
pub is_better-not_both :
    (r : Request) (a b : String) (ours theirs : Decision) (at_a at_b : ℕ)
    → ours.publish_at ≤ at_a
    → theirs.publish_at ≤ at_b
    → is_better (claim_of r a ours at_a) theirs b ≡ true
    → is_better (claim_of r b theirs at_b) ours a ≡ false
unfolding is_better claim_of
is_better-not_both r a b ours theirs at_a at_b p q h = ground (arith, string_ltb-asym a b)

-- With equal scores, and each claim published after the time that the other node's decision named,
-- neither claim beats the other, and both nodes take themselves for the winner.
pub is_better-neither :
    (r : Request) (a b : String) (ours theirs : Decision) (at_a at_b : ℕ)
    → ours.score ≡ theirs.score
    → ours.publish_at < at_b
    → theirs.publish_at < at_a
    → (is_better (claim_of r a ours at_a) theirs b ≡ false)
      × (is_better (claim_of r b theirs at_b) ours a ≡ false)
unfolding is_better claim_of
is_better-neither r a b ours theirs at_a at_b s p q = ground arith
