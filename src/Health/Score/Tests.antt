-- ===== src/Health/Score/Tests.antt =====
-- The theorems about health scores on a concrete cluster.
use falak.Prelude.{ℕ, true, List, [], ◌∷◌, string_eq}
use falak.Phonebook.{active}
use falak.Phonebook.Samples.{peer}
use falak.Health.Score.{ScoreTracker, Band, ScoreConfig}
use falak.Health.Score.Runs.{Call, failing, told}

abbrev bands : List Band
bands = record { min_nodes = 0; threshold_scale = 1; timeout_scale = 1 } ∷ []

-- Suspected from 3, in quarantine from 5.
abbrev config : ScoreConfig
config = record {
  score_increment = 2;
  suspected_threshold = 3;
  quarantine_threshold = 5;
  quarantine_timeout = 60;
  scale_bands = [];
}

abbrev tracker : ScoreTracker
tracker = record {
  phonebook = record { rows = peer active ∷ [] };
  events = [];
  config = config;
  cluster_path = "local";
  quarantine_timers = [];
}

-- Three probes fail, and another node says that the peer is alive.
abbrev calls : List (ℕ × Call)
calls =
    (1, failing "n1" "timeout")
    ∷ (2, failing "n1" "timeout")
    ∷ (3, failing "n1" "timeout")
    ∷ (4, told "n1" 0 true "pong")
    ∷ []

-- In quarantine since 3, the peer has announced itself again.
abbrev returned : ScoreTracker
returned = record tracker { quarantine_timers = ("n1", 3) ∷ [] }
