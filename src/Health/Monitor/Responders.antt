-- ===== src/Health/Monitor/Responders.antt =====
-- Which nodes answer a ping request of node/health/monitor.go.
use falak.Prelude.{Bool, not, ◌||◌, String, string_eq, ◌==◌}
use falak.Phonebook.{Entry, active, same_status}
use falak.Health.Monitor.{Monitor}

-- An active peer other than the target.
abbrev pub can_respond : String → Entry → Bool
can_respond target e = not (e.node_id == target || not (same_status e.status active))

abbrev pub mine : String → Entry → Bool
mine self_id e = e.node_id == self_id
