-- ===== src/Phonebook/Samples.antt =====
-- Test data: a peer of node/phonebook/phonebook.go.
use falak.Prelude.{false, [], ◌∷◌, none}
use falak.Prelude.Int.{pos}
use falak.Phonebook.{Entry, NodeStatus, zero_time}

abbrev pub peer : NodeStatus → Entry
peer s = record {
  node_id = "n1";
  cluster_path = "local";
  public_key = [];
  addresses = "/ip4/10.0.0.1" ∷ [];
  region = "";
  datacenter = "";
  capabilities = none;
  first_seen = pos 1;
  last_seen = pos 1;
  last_connected = zero_time;
  updated_at = pos 1;
  connection_attempts = 3;
  connection_success = 2;
  success_rate = 0;
  consecutive_fails = 1;
  reliability_score = 0;
  last_probe_time = zero_time;
  last_probe_success = false;
  status = s;
  is_connected = false;
}
