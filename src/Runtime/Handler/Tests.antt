-- ===== src/Runtime/Handler/Tests.antt =====
-- The theorems about the runtime handler on a concrete run.
use falak.Prelude.{true, false, [], ◌∷◌, List, some, list_eq, nat_eq, string_eq}
use falak.Shared.Paths.{bytes}
use falak.Runtime.Handler.{Handler, Watcher, CapsuleSpec, Outcomes, status_is, stopped}
use falak.Runtime.Handler.Runs.{Move, won, ticked}

abbrev idle : Handler
idle = record {
  running = [];
  watchers = [];
  next = 0;
  effects = [];
  has_snapshot_store = false;
  has_snapshot_bc = false;
}

abbrev web : CapsuleSpec
web = record {
  image = "web:1";
  image_digest = "";
  has_registry = false;
  port_mappings = (80, 8080) ∷ [];
  has_health_check = false;
  snapshot_ttl = 0;
  restart_limit = 1;
}

abbrev all_well : Outcomes
all_well = record { pulls = true; creates = true; starts = true; restores = true }

-- The replica is won twice, and its container then stops once and is restarted.
abbrev moves : List Move
moves =
    won "c1" "0" (some web) false false all_well
    ∷ won "c1" "0" (some web) false false all_well
    ∷ ticked 1 (status_is stopped 137) true
    ∷ []

abbrev watcher : Watcher
watcher = record {
  container = bytes "falak-c1-0";
  capsule_id = "c1";
  restart_limit = 1;
  local_restarts = 1;
}
