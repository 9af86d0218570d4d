-- ===== src/Health/Score/Status.antt =====
-- The status that node/health/score.go gives a node is the band its score lies in.
use falak.Prelude.{
  ℕ, ◌≤◌, ◌<◌, ◌≡◌, true, false, List, Option, none, some, String, string_eq, ◌==◌, if◌then◌else◌,
  lookup-insert, arith, has, leb,
}
use text.Mathlib.TextEquality.{eq_iff}
use falak.Phonebook.{Entry, NodeStatus, active, suspected, quarantined, same_status}
use falak.Health.Score.{
  ScoreTracker, Band, Thresholds, start_timer, publish, effective, cluster_size, check_thresholds,
}
use falak.Health.Score.Writes.{row, timer, row-write_status, effective-write_status}

-- The status that a score stands for.
abbrev pub status_at : Thresholds → ℕ → NodeStatus
status_at eff score =
    if leb eff.quarantined_at score
    then quarantined
    else if leb eff.suspected_at score
    then suspected
    else active

-- A node that is known has the status of its score, and a timer when that is quarantine.
abbrev pub InBand : Thresholds → Option Entry → Option ℕ → Type 0
InBand eff none t = Unit
InBand eff (some e) t =
    (e.status ≡ status_at eff e.reliability_score) × (has t ≡ same_status e.status quarantined)

-- The thresholds are positive and in order.
abbrev pub Ordered : Thresholds → Type 0
Ordered eff = (0 < eff.suspected_at) × (eff.suspected_at ≤ eff.quarantined_at)

module _ (plus times scaled : ℕ → ℕ → ℕ) (default_bands : List Band) where
  -- What is left of a score's change once it is written.
  pub check_thresholds-InBand :
      (st : ScoreTracker) (now : ℕ) (node : String) (old : ℕ) (reason : String) (e : Entry)
      → Ordered (effective plus times scaled default_bands st)
      → row st node ≡ some e
      → e.status ≡ status_at (effective plus times scaled default_bands st) old
      → has (timer st node) ≡ same_status e.status quarantined
      → old ≤ e.reliability_score
      → InBand
          (effective plus times scaled default_bands st)
          (row
            (check_thresholds plus times scaled default_bands st now true node old
              e.reliability_score reason)
            node)
          (timer
            (check_thresholds plus times scaled default_bands st now true node old
              e.reliability_score reason)
            node)
  unfolding check_thresholds publish start_timer same_status
  check_thresholds-InBand st now node old reason e o g s t h = ground (
    arith,
    row-write_status st now node node quarantined,
    row-write_status st now node node suspected,
    eq_iff node node,
    lookup-insert node node now st.quarantine_timers,
  )

  -- The thresholds stay, and so do the row and the timer of every other node.
  abbrev Local : ScoreTracker → String → ScoreTracker → Type 0
  Local st node st' =
      (effective plus times scaled default_bands st' ≡ effective plus times scaled default_bands st)
      × ((other : String)
          → (node == other) ≡ false
          → (row st' other ≡ row st other) × (timer st' other ≡ timer st other))

  pub check_thresholds-effective :
      (st : ScoreTracker) (now : ℕ) (node : String) (old new : ℕ) (reason : String)
      → effective plus times scaled default_bands
          (check_thresholds plus times scaled default_bands st now true node old new reason)
        ≡ effective plus times scaled default_bands st
  unfolding check_thresholds publish start_timer effective cluster_size
  check_thresholds-effective st now node old new reason = ground (
    arith,
    effective-write_status plus times scaled default_bands st now node quarantined,
    effective-write_status plus times scaled default_bands st now node suspected,
  )

  pub check_thresholds-others :
      (st : ScoreTracker) (now : ℕ) (node other : String) (old new : ℕ) (reason : String)
      → (node == other) ≡ false
      → (row
            (check_thresholds plus times scaled default_bands st now true node old new reason)
            other
          ≡ row st other)
        × (timer
              (check_thresholds plus times scaled default_bands st now true node old new reason)
              other
            ≡ timer st other)
  unfolding check_thresholds publish start_timer
  check_thresholds-others st now node other old new reason d = ground (
    arith,
    row-write_status st now node other quarantined,
    row-write_status st now node other suspected,
    lookup-insert node other now st.quarantine_timers,
  )
