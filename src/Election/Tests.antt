-- ===== src/Election/Tests.antt =====
-- Test data for elections, and the tiebreak between two nodes.
use falak.Prelude.{ℕ, ◌≡◌, refl, ◌≢◌, true, not, String, arith}
use text.Mathlib.TextEquality.{eq_iff}
use falak.Election.Types.{Request, Decision, initial, claim_of, is_better}
use falak.Election.Tiebreak.{is_better-exactly_one}

abbrev req : Request
req = record {
  capsule_id = "web";
  replica_id = "r1";
  cluster_path = "eu/b1/k";
  reason = initial;
  previous_node_id = "";
  priority = 0;
  created_at = 0;
}

abbrev decided : ℕ → ℕ → Decision
decided score at = record { eligible = true; score = score; publish_at = at; why = "" }

a_is_not_b : ◌≢◌ {A = String} "a" "b"
a_is_not_b e = absurd (ground (arith, eq_iff "a" "b"))

-- Equal scores and times: the node IDs decide.
is_better-exactly_one_example :
    is_better (claim_of req "a" (decided 80 5) 5) (decided 80 5) "b"
    ≡ not (is_better (claim_of req "b" (decided 80 5) 5) (decided 80 5) "a")
is_better-exactly_one_example =
    is_better-exactly_one req "a" "b" (decided 80 5) (decided 80 5) a_is_not_b

a_beats_b : is_better (claim_of req "a" (decided 90 5) 6) (decided 80 5) "b" ≡ true
unfolding is_better claim_of
a_beats_b = refl
