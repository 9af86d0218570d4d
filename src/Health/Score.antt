-- ===== src/Health/Score.antt =====
-- node/health/score.go. Scores and thresholds are floats that are not negative, given by their bit
-- patterns, which have the order of the numbers; `plus`, `times` and `scaled` (a duration times a
-- float) are the arithmetic of floats. A call takes the time `now` and, for its statements on the
-- phonebook, whether they succeed. The published events are kept, the latest first.
mod Writes
mod Status
mod Changes
mod Runs
mod Timeouts
mod Tests
use falak.Prelude.{
  ℕ, ◌+◌, Bool, true, false, ◌&&◌, ◌||◌, List, [], ◌∷◌, Option, none, some, String, Map, string_eq,
  lookup, insert, delete, length, is_nil, ltb, leb, if◌then◌else◌,
}
use falak.Phonebook
use falak.Phonebook.{
  Phonebook, Entry, NodeStatus, active, suspected, quarantined, failed, same_status, get_by_cluster,
  set_reliability_score, set_status,
}

pub record Band : Type 0 where
  pub min_nodes : ℕ
  pub threshold_scale : ℕ
  pub timeout_scale : ℕ

pub record ScoreConfig : Type 0 where
  pub score_increment : ℕ
  pub suspected_threshold : ℕ
  pub quarantine_threshold : ℕ
  pub quarantine_timeout : ℕ
  pub scale_bands : List Band

pub record Thresholds : Type 0 where
  pub suspected_at : ℕ
  pub quarantined_at : ℕ
  pub timeout : ℕ

pub data HealthEvent : Type 0 where
  node_recovered : String → NodeStatus → HealthEvent
  probe_result : String → Bool → String → ℕ → HealthEvent
  node_suspected node_quarantined : String → ℕ → HealthEvent
  node_failed : String → HealthEvent

pub record ScoreTracker : Type 0 where
  pub phonebook : Phonebook
  pub events : List HealthEvent
  pub config : ScoreConfig
  pub cluster_path : String
  pub quarantine_timers : Map String ℕ

pub new_score_tracker : String → Phonebook → ScoreConfig → ScoreTracker
new_score_tracker path p config = record {
  phonebook = p;
  events = [];
  config = config;
  cluster_path = path;
  quarantine_timers = [];
}

-- The loop that keeps the last band whose `min_nodes` the size reaches.
pub last_band : ℕ → Band → List Band → Band
last_band size band [] = band
last_band size band (b ∷ bs) = last_band size (if leb b.min_nodes size then b else band) bs

-- A Go `Band{}`, whose scales are 0.
abbrev pub no_band : Band
no_band = record { min_nodes = 0; threshold_scale = 0; timeout_scale = 0 }

pub cluster_size : ScoreTracker → ℕ
cluster_size st = length (get_by_cluster st.phonebook st.cluster_path)

pub get_score : ScoreTracker → String → ℕ
get_score st node = elim (Phonebook.get st.phonebook node st.cluster_path) [
  | none ↦ 0
  | some e ↦ e.reliability_score
]

pub is_degraded : NodeStatus → Bool
unfolding same_status
is_degraded status = same_status status suspected || same_status status quarantined

pub publish : ScoreTracker → HealthEvent → ScoreTracker
publish st event = record st { events = event ∷ st.events }

-- `SetStatus` of a node of the cluster, an error of which changes nothing.
pub write_status : ScoreTracker → ℕ → Bool → String → NodeStatus → ScoreTracker
write_status st now written node status = record st {
  phonebook =
      if written then set_status st.phonebook now node st.cluster_path status else st.phonebook;
}

-- Likewise `SetReliabilityScore`.
pub write_score : ScoreTracker → ℕ → Bool → String → ℕ → ScoreTracker
write_score st now written node score = record st {
  phonebook =
      if written
      then set_reliability_score st.phonebook now node st.cluster_path score
      else st.phonebook;
}

pub stop_timer : ScoreTracker → String → ScoreTracker
stop_timer st node = record st { quarantine_timers = delete node st.quarantine_timers }

pub start_timer : ScoreTracker → ℕ → String → ScoreTracker
start_timer st now node = record st { quarantine_timers = insert node now st.quarantine_timers }

-- The recovery event, for a node that was degraded.
pub recovered : ScoreTracker → String → NodeStatus → ScoreTracker
unfolding is_degraded publish
recovered st node status =
    if is_degraded status then publish st (node_recovered node status) else st

pub record_success : ScoreTracker → ℕ → Bool → Bool → String → String → ScoreTracker
unfolding write_score write_status stop_timer recovered publish
record_success st now scored status_set node reason =
    elim (Phonebook.get st.phonebook node st.cluster_path) [
      | none ↦ st
      | some e ↦
          let st1 = write_score st now scored node 0 in
          let st2 = write_status st1 now status_set node active in
          if scored
          then (if status_set
              then publish (recovered (stop_timer st2 node) node e.status)
                  (probe_result node true reason 0)
              else st2)
          else st1
    ]

module _ (plus times scaled : ℕ → ℕ → ℕ) (default_bands : List Band) where
  pub compute_effective : ScoreConfig → ℕ → Thresholds
  unfolding last_band
  compute_effective cfg size =
      let bands = if is_nil cfg.scale_bands then default_bands else cfg.scale_bands in
      let band = last_band size no_band bands in
      record {
        suspected_at = times cfg.suspected_threshold band.threshold_scale;
        quarantined_at = times cfg.quarantine_threshold band.threshold_scale;
        timeout = scaled cfg.quarantine_timeout band.timeout_scale;
      }

  pub effective : ScoreTracker → Thresholds
  unfolding compute_effective cluster_size
  effective st = compute_effective st.config (cluster_size st)

  -- The caller has written the new score.
  pub check_thresholds : ScoreTracker → ℕ → Bool → String → ℕ → ℕ → String → ScoreTracker
  unfolding effective publish write_status start_timer
  check_thresholds st now status_set node old new reason =
      let eff = effective st in
      if ltb old eff.quarantined_at && leb eff.quarantined_at new
      then publish (start_timer (write_status st now status_set node quarantined) now node)
          (node_quarantined node new)
      else publish
          (if ltb old eff.suspected_at && leb eff.suspected_at new
            then publish (write_status st now status_set node suspected) (node_suspected node new)
            else st)
          (probe_result node false reason new)

  -- The new score, or the old one when it was not written.
  pub record_failure : ScoreTracker → ℕ → Bool → Bool → String → String → ScoreTracker × ℕ
  unfolding write_score check_thresholds
  record_failure st now scored status_set node reason =
      elim (Phonebook.get st.phonebook node st.cluster_path) [
        | none ↦ (st, 0)
        | some e ↦
            let new = plus e.reliability_score st.config.score_increment in
            if scored
            then (
              check_thresholds (write_score st now true node new) now status_set node
                  e.reliability_score new reason,
              new,
            )
            else (st, e.reliability_score)
      ]

  pub set_score : ScoreTracker → ℕ → Bool → Bool → String → ℕ → Bool → String → ScoreTracker
  unfolding write_score write_status stop_timer recovered check_thresholds
  set_score st now scored status_set node score alive reason =
      let entry = Phonebook.get st.phonebook node st.cluster_path in
      elim alive [
        | true ↦
            let st' =
              stop_timer
                (write_status (write_score st now scored node 0) now status_set node active) node in
            elim entry [ none ↦ st' | some e ↦ recovered st' node e.status ]
        | false ↦ elim entry [
          | none ↦ st
          | some e ↦
              check_thresholds (write_score st now scored node score) now status_set node
                e.reliability_score score reason
        ]
      ]

  -- The loop over the timers, with the nodes that it marked as failed.
  pub check_timers :
      ℕ → ScoreTracker → ℕ → (String → Bool) → Map String ℕ → ScoreTracker × List String
  unfolding write_status stop_timer publish
  check_timers timeout st now written [] = (st, [])
  check_timers timeout st now written ((node, at) ∷ timers) =
      elim (ltb (at + timeout) now && written node) [
        | true ↦
            let st' =
              publish (stop_timer (write_status st now true node failed) node) (node_failed node) in
            let (st'', nodes) = check_timers timeout st' now written timers in (st'', node ∷ nodes)
        | false ↦ check_timers timeout st now written timers
      ]

  pub check_quarantine_timeouts : ScoreTracker → ℕ → (String → Bool) → ScoreTracker × List String
  unfolding check_timers effective
  check_quarantine_timeouts st now written =
      check_timers (effective st).timeout st now written st.quarantine_timers
