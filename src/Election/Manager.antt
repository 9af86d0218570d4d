-- ===== src/Election/Manager.antt =====
-- `Manager` of election/manager.go around its rounds: requests, clusters, overrides. A strategy
-- takes the calculator `C` with the state provider; the capsules and the outcome of opening a
-- pubsub topic are arguments. `Stop` cancels the rounds through their context: each then wakes with
-- `cancelled`.
mod Laws
mod Tests
use falak.Prelude.{
  ℕ, Bool, true, false, not, List, [], ◌∷◌, Option, none, some, String, Map, lookup, insert, delete,
  has, string_eq, pair_eq, ◌==◌, if◌then◌else◌,
}
use falak.Prelude.Int.{ℤ, pos, ltb_ℤ}
use falak.Capsule.Store.{Capsule}
use falak.Election.Types.{Request, Decision}
use falak.Election.Topic.{MessageKey, ClusterTopic, new_cluster_topic, listen}
use falak.Election.Round.{Round, Node, key_of, is_running, begin_round, forget_capsule}

pub data ElectionError : Type 0 where
  not_started missing_dependency capsule_not_found cluster_not_joined : ElectionError
  no_strategy pubsub_not_configured join_failed : ElectionError

pub record StrategyRegistry (S : Type 0) : Type 0 where
  pub default_s : Option S
  pub per_cluster : Map String S

module _ {S : Type 0} where
  unfoldable pub set : StrategyRegistry S → String → S → StrategyRegistry S
  set r path s = record r { per_cluster = insert path s r.per_cluster }

  unfoldable pub get : StrategyRegistry S → String → Option S
  get r path = elim (lookup path r.per_cluster) [ some s ↦ some s | none ↦ r.default_s ]

module _ (C : Type 0) where
  pub record Strategy : Type 0 where
    pub name : String
    pub decide : Request → Capsule → Option C → ℕ → Decision

  pub record Manager : Type 0 where
    pub registry : StrategyRegistry Strategy
    pub calculator : Option C
    pub per_cluster_calc : Map String C
    pub election_timeout : ℤ
    pub per_cluster_timeout : Map String ℤ
    pub has_dependencies : Bool
    pub has_pubsub : Bool
    pub started : Bool
    pub topics : Map String ClusterTopic
    pub node : Node
    pub elections_started : List String

module _ {C : Type 0} where
  -- A nil calculator removes the override.
  unfoldable pub set_cluster_calculator : Manager C → String → Option C → Manager C
  set_cluster_calculator m path none = record m {
    per_cluster_calc = delete path m.per_cluster_calc;
  }
  set_cluster_calculator m path (some calc) = record m {
    per_cluster_calc = insert path calc m.per_cluster_calc;
  }

  unfoldable pub set_cluster_timeout : Manager C → String → ℤ → Manager C
  set_cluster_timeout m path d =
      if ltb_ℤ (pos 0) d
      then record m { per_cluster_timeout = insert path d m.per_cluster_timeout }
      else record m { per_cluster_timeout = delete path m.per_cluster_timeout }

  unfoldable pub calculator_for : Manager C → String → Option C
  calculator_for m path = elim (lookup path m.per_cluster_calc) [
    | some c ↦ some c
    | none ↦ m.calculator
  ]

  unfoldable pub timeout_for : Manager C → String → ℤ
  timeout_for m path = elim (lookup path m.per_cluster_timeout) [
    | some d ↦ d
    | none ↦ m.election_timeout
  ]

  unfoldable pub start : Manager C → Manager C
  start m = record m { started = true }

  unfoldable pub join_cluster : Manager C → String → Bool → Manager C × Option ElectionError
  join_cluster m path opened =
      if not m.started
      then (m, some not_started)
      else if has (lookup path m.topics)
      then (m, none)
      else if not m.has_pubsub
      then (m, some pubsub_not_configured)
      else if not opened
      then (m, some join_failed)
      else (
        record m { topics = insert path (new_cluster_topic path m.node.node_id) m.topics },
        none,
      )

  unfoldable pub leave_cluster : Manager C → String → Manager C
  leave_cluster m path = record m { topics = delete path m.topics }

  unfoldable pub stop : Manager C → Manager C
  stop m = record m { topics = [] }

  unfoldable pub forget : Manager C → String → Manager C
  forget m id = record m { node = forget_capsule m.node id }

  abbrev pub in_flight : Manager C → MessageKey → Bool
  in_flight m key = elim (lookup key m.node.rounds) [ none ↦ false | some r ↦ is_running r ]

  -- `m.inflight[key]` is set, `StartElection` is called, and the round runs to its first wait.
  unfoldable pub launch : Manager C → Request → Capsule → Strategy C → ClusterTopic → ℕ → Manager C
  unfolding calculator_for
  launch m req c strategy topic now =
      let decision = strategy.decide req c (calculator_for m req.cluster_path) now in
      record m {
        topics = insert req.cluster_path (listen topic (key_of req) 16).0 m.topics;
        node = begin_round m.node req decision now;
        elections_started = req.capsule_id ∷ m.elections_started;
      }

  -- `HandleRequest` once it has the capsule.
  unfoldable pub dispatched : Manager C → Request → Capsule → ℕ → Manager C × Option ElectionError
  unfolding get launch
  dispatched m req c now =
      if in_flight m (key_of req) then (m, none) else elim (lookup req.cluster_path m.topics) [
        | none ↦ (m, some cluster_not_joined)
        | some topic ↦ elim (get m.registry req.cluster_path) [
          | none ↦ (m, some no_strategy)
          | some strategy ↦ (launch m req c strategy topic now, none)
        ]
      ]

  unfoldable pub handle_request :
      Manager C → (String → Option Capsule) → Request → ℕ → Manager C × Option ElectionError
  unfolding dispatched
  handle_request m capsules req now =
      if not m.started
      then (m, some not_started)
      else if not m.has_dependencies
      then (m, some missing_dependency)
      else elim (capsules req.capsule_id) [
        | none ↦ (m, some capsule_not_found)
        | some c ↦ dispatched m req c now
      ]
