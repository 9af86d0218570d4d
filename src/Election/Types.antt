-- ===== src/Election/Types.antt =====
-- election/elector.go, the messages of election/proto, and the tiebreak of election/manager.go. A
-- gravity score is a non-negative float64, given by its bit pattern, which orders like the number
-- (`0` and up, no NaN). Times are in microseconds. `Won`, `Lost` and `Failed` carry what `report`
-- is called with.
use falak.Prelude.{ℕ, Bool, String, string_ltb, nat_eq, ◌==◌, ltb, not, if◌then◌else◌}

pub data Reason : Type 0 where
  initial scale_up node_failure manual rebalance : Reason

pub record Request : Type 0 where
  pub capsule_id : String
  pub replica_id : String
  pub cluster_path : String
  pub reason : Reason
  pub previous_node_id : String
  pub priority : ℕ
  pub created_at : ℕ

pub record Decision : Type 0 where
  pub eligible : Bool
  pub score : ℕ
  pub publish_at : ℕ
  pub why : String

pub record Claim : Type 0 where
  pub capsule_id : String
  pub replica_id : String
  pub cluster_path : String
  pub node_id : String
  pub gravity_score : ℕ
  pub timestamp_micros : ℕ

pub record ElectionFailed : Type 0 where
  pub capsule_id : String
  pub replica_id : String
  pub cluster_path : String
  pub sender_id : String
  pub why : String
  pub timestamp_micros : ℕ

pub data Outcome : Type 0 where
  won lost : String → ℕ → Outcome
  failed : String → Outcome

unfoldable pub is_better : Claim → Decision → String → Bool
is_better rival ours our_node_id =
    if not (rival.gravity_score == ours.score)
    then ltb ours.score rival.gravity_score
    else if not (rival.timestamp_micros == ours.publish_at)
    then ltb rival.timestamp_micros ours.publish_at
    else string_ltb rival.node_id our_node_id

-- The claim that `runElection` publishes.
unfoldable pub claim_of : Request → String → Decision → ℕ → Claim
claim_of req node decision published_at = record {
  capsule_id = req.capsule_id;
  replica_id = req.replica_id;
  cluster_path = req.cluster_path;
  node_id = node;
  gravity_score = decision.score;
  timestamp_micros = published_at;
}
