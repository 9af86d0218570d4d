-- ===== src/Gravity/Tests.antt =====
-- The theorems about gravity scores and the delay strategy on a concrete node.
use falak.Prelude.{ℕ, ◌≡◌, ◌≢◌, ◌↔◌, true, [], ◌∷◌, List, none, some, any}
use falak.Capsule.Types.{announced, running}
use falak.Capsule.Store.{Capsule}
use falak.Capsule.Samples.{web_at}
use falak.Election.Types.{Request, node_failure}
use falak.Gravity.Samples.{gpu_node, nowhere, plain_weights, reason_text}
use falak.Gravity.Eligibility.{excluded, passed_eligibility, is_eligible, nodes_running_capsule}
use falak.Gravity.Eligibility.Filter.{IsFit, hosts, is_eligible_iff, is_eligible-excluded}
use falak.Gravity.Calculator.{Calculator}

is_eligible_iff_example :
    (passed_eligibility (is_eligible reason_text (web_at announced) gpu_node (some nowhere)) ≡ true)
    ↔ IsFit (web_at announced) gpu_node (some nowhere)
is_eligible_iff_example = is_eligible_iff reason_text (web_at announced) gpu_node (some nowhere)

-- The capsule has a replica on the node already.
abbrev known : List Capsule
known =
    record (web_at running) {
      replicas =
          record { replica_id = "0"; node_id = "gpu-1"; status = running; started_at = 0 } ∷ [];
    }
    ∷ []

gpu_node-named : gpu_node.node_id ≢ ""
gpu_node-named e = absurd (cc)

is_eligible-excluded_example :
    ((is_eligible reason_text
        (web_at announced)
        gpu_node
        (some (nodes_running_capsule known))).reason
      ≡ excluded)
    ↔ (any (hosts "local" "web" "gpu-1") known ≡ true)
is_eligible-excluded_example =
    is_eligible-excluded reason_text (web_at announced) gpu_node known gpu_node-named

abbrev calculator : Calculator ℕ
calculator = record { weights = plain_weights; target_lookup = some nowhere; snap_lookup = none }

abbrev request : Request
request = record {
  capsule_id = "c1";
  replica_id = "2";
  cluster_path = "local";
  reason = node_failure;
  previous_node_id = "";
  priority = 0;
  created_at = 0;
}
