-- ===== src/Health/Score/Timeouts.antt =====
-- Which nodes node/health/score.go marks as failed when their quarantine is over.
use falak.Prelude.{
  ℕ, ◌+◌, Bool, true, ◌&&◌, List, String, Map, string_eq, ◌==◌, keep, any, map, ltb,
}
use falak.Phonebook.{failed}
use falak.Health.Score.{ScoreTracker, node_failed, write_status, stop_timer, publish}

-- The quarantine has lasted longer than `timeout`, and the status can be written.
abbrev pub is_over : ℕ → ℕ → (String → Bool) → String × ℕ → Bool
is_over timeout now written t = ltb (t.1 + timeout) now && written t.0

abbrev pub over : ℕ → ℕ → (String → Bool) → Map String ℕ → List String
over timeout now written timers = map (λ t. t.0) (keep (is_over timeout now written) timers)

abbrev pub among : String → List String → Bool
among node nodes = any (λ n. n == node) nodes

marked : ScoreTracker → ℕ → String → ScoreTracker
marked st now n = publish (stop_timer (write_status st now true n failed) n) (node_failed n)
