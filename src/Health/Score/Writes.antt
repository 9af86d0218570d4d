-- ===== src/Health/Score/Writes.antt =====
-- What a statement of node/health/score.go makes of the row and the timer of a node.
use falak.Prelude.{
  ℕ, ◌≡◌, refl, ap, true, List, Option, String, string_eq, ◌==◌, lookup, if◌then◌else◌,
}
use falak.Prelude.Int.{pos}
use falak.Phonebook
use falak.Phonebook.{Entry, NodeStatus, set_status, set_reliability_score, modify, get_by_cluster}
use falak.Phonebook.Rows.{KeepsKey, change, get-modify_in, get_by_cluster-modify}
use falak.Health.Score.{
  ScoreTracker, Band, write_status, write_score, effective, compute_effective, cluster_size,
}

-- The row of a node, and the start of its quarantine.
abbrev pub row : ScoreTracker → String → Option Entry
row st node = Phonebook.get st.phonebook node st.cluster_path

abbrev pub timer : ScoreTracker → String → Option ℕ
timer st node = lookup node st.quarantine_timers

abbrev pub with_status : ℕ → NodeStatus → Entry → Entry
with_status now status e = record e { status = status; updated_at = pos now }

abbrev pub with_score : ℕ → ℕ → Entry → Entry
with_score now score e = record e { reliability_score = score; updated_at = pos now }

module _ (st : ScoreTracker) (now : ℕ) (node other : String) where
  modified :
      (f : Entry → Entry)
      → KeepsKey f
      → Phonebook.get (modify st.phonebook node st.cluster_path f) other st.cluster_path
        ≡ (if node == other then change f (row st other) else row st other)
  modified f k = get-modify_in st.phonebook node other st.cluster_path f k

  pub row-write_status :
      (status : NodeStatus)
      → row (write_status st now true node status) other
        ≡ (if node == other then change (with_status now status) (row st other) else row st other)
  unfolding write_status set_status
  row-write_status status = modified (with_status now status) (λ e. (refl, refl))

  pub row-write_score :
      (score : ℕ)
      → row (write_score st now true node score) other
        ≡ (if node == other then change (with_score now score) (row st other) else row st other)
  unfolding write_score set_reliability_score
  row-write_score score = modified (with_score now score) (λ e. (refl, refl))

module _ (plus times scaled : ℕ → ℕ → ℕ) (default_bands : List Band) where
  pub effective-write_status :
      (st : ScoreTracker) (now : ℕ) (node : String) (status : NodeStatus)
      → effective plus times scaled default_bands (write_status st now true node status)
        ≡ effective plus times scaled default_bands st
  unfolding effective write_status set_status cluster_size
  effective-write_status st now node status =
      ap (compute_effective plus times scaled default_bands st.config) (
        get_by_cluster-modify st.phonebook node st.cluster_path st.cluster_path
          (with_status now status) (λ e. (refl, refl)))

  pub effective-write_score :
      (st : ScoreTracker) (now : ℕ) (node : String) (score : ℕ)
      → effective plus times scaled default_bands (write_score st now true node score)
        ≡ effective plus times scaled default_bands st
  unfolding effective write_score set_reliability_score cluster_size
  effective-write_score st now node score =
      ap (compute_effective plus times scaled default_bands st.config) (
        get_by_cluster-modify st.phonebook node st.cluster_path st.cluster_path
          (with_score now score) (λ e. (refl, refl)))
