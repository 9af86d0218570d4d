-- ===== src/Election/Manager/Tests.antt =====
-- The theorems about the election manager at a concrete one. A calculator is a weight.
use falak.Prelude.{ℕ, true, [], ◌∷◌, Option, some, String, string_eq}
use falak.Prelude.Int.{pos}
use falak.Capsule.Types.{announced}
use falak.Capsule.Store.{Capsule}
use falak.Capsule.Samples.{web_at}
use falak.Election.Types.{Request, initial}
use falak.Election.Topic.{new_cluster_topic}
use falak.Election.Round.{new_node}
use falak.Election.Manager.{Strategy, Manager}

abbrev home : String
home = "eu/b1/k"

abbrev delay_strategy : Strategy ℕ
delay_strategy = record {
  name = "delay";
  decide = λ req c calc now. record { eligible = true; score = 80; publish_at = now; why = "" };
}

abbrev manager : Manager ℕ
manager = record {
  registry = record { default_s = some delay_strategy; per_cluster = [] };
  calculator = some 1;
  per_cluster_calc = [];
  election_timeout = pos 10;
  per_cluster_timeout = ("eu/b1/k", pos 20) ∷ [];
  has_dependencies = true;
  has_pubsub = true;
  started = true;
  topics = ("eu/b1/k", new_cluster_topic "eu/b1/k" "a") ∷ [];
  node = new_node "a";
  elections_started = [];
}

abbrev req : Request
req = record {
  capsule_id = "web";
  replica_id = "r1";
  cluster_path = "eu/b1/k";
  reason = initial;
  previous_node_id = "";
  priority = 0;
  created_at = 0;
}

abbrev capsules : String → Option Capsule
capsules id = some (web_at announced)
