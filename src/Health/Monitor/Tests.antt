-- ===== src/Health/Monitor/Tests.antt =====
-- The theorem about responders on a concrete cluster.
use falak.Prelude.{[], ◌∷◌, string_eq}
use falak.Phonebook.{active}
use falak.Phonebook.Samples.{peer}
use falak.Health.Score.{ScoreConfig}
use falak.Health.Monitor.{Monitor}
use falak.Health.Score.{new_score_tracker}

abbrev config : ScoreConfig
config = record {
  score_increment = 2;
  suspected_threshold = 3;
  quarantine_threshold = 5;
  quarantine_timeout = 60;
  scale_bands = [];
}

abbrev monitor : Monitor
monitor = record {
  self_id = "n1";
  max_responders = 1;
  scores = new_score_tracker "local" (record { rows = peer active ∷ [] }) config;
}
