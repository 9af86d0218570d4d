-- ===== src/Health/Monitor.antt =====
-- node/health/monitor.go. Whether a peer answers a ping, which candidate the random choice picks and
-- which IDs decode are arguments; the messages that a handler publishes are its second result.
-- `sort.Slice` by `FirstSeen` is an insertion sort.
mod Responders
mod Tests
use falak.Prelude.{
  ℕ, suc, zero, ◌+◌, Bool, true, false, not, ◌&&◌, ◌||◌, List, [], ◌∷◌, ◌++◌, map, Option, none,
  some, String, string_eq, ◌==◌, keep, ltb, leb, length, if◌then◌else◌,
}
use falak.Prelude.Int.{ltb_ℤ}
use falak.Phonebook
use falak.Phonebook.{
  Phonebook, Entry, active, quarantined, failed, same_status, get_by_cluster, get_by_status,
}
use falak.Health.Score.{
  Band, ScoreTracker, record_success, record_failure, set_score, get_score,
  check_quarantine_timeouts,
}

pub data Message : Type 0 where
  score_update : String → ℕ → Bool → String → Message
  ping_request : String → String → Message
  threshold_crossed : String → ℕ → Message

-- `host.ID()`, and what is configured.
pub record Monitor : Type 0 where
  pub self_id : String
  pub max_responders : ℕ
  pub scores : ScoreTracker

pub set_scores : Monitor → ScoreTracker → Monitor
set_scores m st = record m { scores = st }

pub peers : Monitor → List Entry
peers m = get_by_cluster m.scores.phonebook m.scores.cluster_path

pub is_candidate : String → Entry → Bool
is_candidate self_id e =
    not (e.node_id == self_id)
    && not (same_status e.status quarantined || same_status e.status failed)

pub nth : List Entry → ℕ → Option Entry
nth [] i = none
nth (e ∷ es) zero = some e
nth (e ∷ es) (suc i) = nth es i

-- `candidates[rand.Intn(len(candidates))]`, with the number that was drawn.
pub select_random_active_peer : Monitor → ℕ → Option Entry
unfolding peers is_candidate nth
select_random_active_peer m draw = nth (keep (is_candidate m.self_id) (peers m)) draw

pub seniority : Entry → List Entry → List Entry
seniority e [] = e ∷ []
seniority e (d ∷ ds) = if ltb_ℤ d.first_seen e.first_seen then d ∷ seniority e ds else e ∷ d ∷ ds

pub by_first_seen : List Entry → List Entry
unfolding seniority
by_first_seen [] = []
by_first_seen (e ∷ es) = seniority e (by_first_seen es)

-- The loop over the sorted peers.
pub responder_loop : String → ℕ → String → ℕ → List Entry → Bool
responder_loop self_id max_responders target position [] = false
responder_loop self_id max_responders target position (e ∷ es) =
    elim (e.node_id == target || not (same_status e.status active)) [
      | true ↦ responder_loop self_id max_responders target position es
      | false ↦ elim (e.node_id == self_id) [
        | true ↦ ltb position max_responders
        | false ↦ elim (leb max_responders (position + 1)) [
          | true ↦ false
          | false ↦ responder_loop self_id max_responders target (position + 1) es
        ]
      ]
    ]

pub is_top_responder : Monitor → String → Bool
unfolding peers by_first_seen responder_loop
is_top_responder m target =
    responder_loop m.self_id m.max_responders target 0 (by_first_seen (peers m))

-- Whether the node is quarantined in the phonebook.
pub is_quarantined : Monitor → String → Bool
is_quarantined m node = elim (Phonebook.get m.scores.phonebook node m.scores.cluster_path) [
  | none ↦ false
  | some e ↦ same_status e.status quarantined
]

abbrev crossing : Bool → String → ℕ → List Message
crossing true node score = threshold_crossed node score ∷ []
crossing false node score = []

pub on_probe_success : Monitor → ℕ → Bool → Bool → String → Monitor × List Message
unfolding set_scores
on_probe_success m now scored status_set node = (
  set_scores m (record_success m.scores now scored status_set node "direct"),
  score_update node 0 true "direct_ping_success" ∷ [],
)

-- What follows the ping of a responder.
pub probed : Monitor → ℕ → Bool → Bool → String → Bool → Monitor × List Message
unfolding set_scores is_quarantined
probed m now scored status_set node true = (
  set_scores m (record_success m.scores now scored status_set node "indirect_ping_success"),
  score_update node 0 true "indirect_ping_success" ∷ [],
)
probed m now scored status_set node false =
    let score = get_score m.scores node in
    (
      m,
      score_update node score false "indirect_ping_fail"
          ∷ crossing (is_quarantined m node) node score,
    )

-- The loop that removes the failed nodes.
pub remove_all : Phonebook → String → (String → Bool) → List String → Phonebook
remove_all p cluster removes [] = p
remove_all p cluster removes (node ∷ nodes) =
    remove_all (if removes node then Phonebook.remove p node cluster else p) cluster removes nodes

module _ (plus times scaled : ℕ → ℕ → ℕ) (default_bands : List Band) (decodes : String → Bool) where
  pub on_direct_ping_fail : Monitor → ℕ → Bool → Bool → String → Monitor × List Message
  unfolding set_scores is_quarantined
  on_direct_ping_fail m now scored status_set node =
      let (st, score) =
        record_failure plus times scaled default_bands m.scores now scored status_set node
          "direct_ping_fail" in
      let m' = set_scores m st in
      (
        m',
        score_update node score false "direct_ping_fail"
            ∷ ping_request node m.self_id
            ∷ crossing (is_quarantined m' node) node score,
      )

  -- `drawn` is the random number, `answers` whether the peer answers the ping.
  pub run_protocol_period : Monitor → ℕ → Bool → Bool → ℕ → (String → Bool) → Monitor × List Message
  unfolding select_random_active_peer on_probe_success on_direct_ping_fail
  run_protocol_period m now scored status_set drawn answers =
      elim (select_random_active_peer m drawn) [
        | none ↦ (m, [])
        | some e ↦
            if decodes e.node_id
            then (if answers e.node_id
                then on_probe_success m now scored status_set e.node_id
                else on_direct_ping_fail m now scored status_set e.node_id)
            else (m, [])
      ]

  pub on_score_update : Monitor → ℕ → Bool → Bool → String → ℕ → Bool → String → Monitor
  unfolding set_scores
  on_score_update m now scored status_set node score alive reason = set_scores m (
      set_score plus times scaled default_bands m.scores now scored status_set node score alive
        reason)

  pub on_ping_request :
      Monitor → ℕ → Bool → Bool → String → String → (String → Bool) → Monitor × List Message
  unfolding is_top_responder probed set_scores
  on_ping_request m now scored status_set requester node answers =
      if requester == m.self_id || not (decodes node) || not (is_top_responder m node)
      then (m, [])
      else (let (st, score) =
            record_failure plus times scaled default_bands m.scores now scored status_set node
              "indirect_pre_probe" in
          probed (set_scores m st) now scored status_set node (answers node))

  pub on_threshold_crossed :
      Monitor → ℕ → Bool → Bool → String → (String → Bool) → Monitor × List Message
  unfolding set_scores
  on_threshold_crossed m now scored status_set node answers =
      if decodes node && answers node
      then (
        set_scores m
            (record_success m.scores now scored status_set node "final_confirmation_success"),
        score_update node 0 true "final_confirmation_success" ∷ [],
      )
      else (m, [])

  -- A tick of `quarantineCheckLoop`: the failed nodes leave the phonebook.
  pub quarantine_check : Monitor → ℕ → (String → Bool) → (String → Bool) → Monitor
  unfolding set_scores remove_all
  quarantine_check m now written removes =
      let (st, nodes) =
        check_quarantine_timeouts plus times scaled default_bands m.scores now written in
      set_scores m (record st { phonebook = remove_all st.phonebook st.cluster_path removes nodes })

pub probe_quarantined_peers : Monitor → List Message
probe_quarantined_peers m =
    map (λ e. ping_request e.node_id m.self_id)
      (get_by_status m.scores.phonebook m.scores.cluster_path quarantined)
