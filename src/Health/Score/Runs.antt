-- ===== src/Health/Score/Runs.antt =====
-- The scores of node/health/score.go over any run of probes and updates.
use falak.Prelude.{ℕ, ◌≤◌, Bool, true, false, List, [], ◌∷◌, String, string_eq}
use falak.Health.Score.{ScoreTracker, Band, get_score, record_failure, record_success, set_score}

-- What reaches a tracker: probes that failed or succeeded, and score updates of other nodes.
pub data Call : Type 0 where
  failing succeeding : String → String → Call
  told : String → ℕ → Bool → String → Call

abbrev pub subject : Call → String
subject (failing node reason) = node
subject (succeeding node reason) = node
subject (told node score alive reason) = node

module _ (plus times scaled : ℕ → ℕ → ℕ) (default_bands : List Band) where
  pub step : ScoreTracker → ℕ → Call → ScoreTracker
  step st now (failing node reason) =
      (record_failure plus times scaled default_bands st now true true node reason).0
  step st now (succeeding node reason) = record_success st now true true node reason
  step st now (told node score alive reason) =
      set_score plus times scaled default_bands st now true true node score alive reason

  pub run : ScoreTracker → List (ℕ × Call) → ScoreTracker
  unfolding step
  run st [] = st
  run st ((now, c) ∷ cs) = run (step st now c) cs

  -- An update that does not call the node alive does not lower its score.
  abbrev pub Expected : ScoreTracker → Call → Type 0
  Expected st (told node score false reason) = get_score st node ≤ score
  Expected st _ = Unit

  abbrev pub AllExpected : ScoreTracker → List (ℕ × Call) → Type 0
  AllExpected st [] = Unit
  AllExpected st ((now, c) ∷ cs) = Expected st c × AllExpected (step st now c) cs
