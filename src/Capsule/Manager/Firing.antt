-- ===== src/Capsule/Manager/Firing.antt =====
-- The operations of capsule/manager.go that fire the state machine, the parameter `engine`, and
-- `Create`, which announces the capsule that it made; it takes the new ID as an argument.
use falak.Prelude.{
  ℕ, Bool, not, [], Option, none, some, String, lookup, insert, is_nil, ◌==◌, string_eq,
  if◌then◌else◌,
}
use falak.Capsule.Types.{CapsuleStatus, created}
use falak.Capsule.Lifecycle.{
  Trigger, announce, election_started, election_won, election_timeout, execution_started,
  execution_failed, container_ready, stop_requested, container_stopped, node_failed,
  scale_up_needed, scale_down_needed, Engine, LifecycleEvent, Lifecycle, new_lifecycle,
}
use falak.Capsule.Lifecycle
use falak.Capsule.Store
use falak.Capsule.Store.{Store, StoreError, Capsule, ReplicaState}
use falak.Spec.Records.{CapsuleSpec}
use falak.Spec.Defaults.{default_spec}
use falak.Spec.Validation.{validate_spec}
use falak.Capsule.Manager.{
  capsule_created, Manager, ManagerError, cluster_id_required, capsule_not_found, transition_failed,
  invalid_spec, store_failed, emit, on_lifecycle_transition,
}

module _ (engine : Engine) where
  unfoldable pub after_fire :
      Manager
      → ℕ
      → Bool
      → String
      → Lifecycle × Option LifecycleEvent
      → Manager × Option ManagerError
  unfolding on_lifecycle_transition
  after_fire m now written id (l, none) =
      (record m { lifecycles = insert id l m.lifecycles }, some transition_failed)
  after_fire m now written id (l, some event) = (
    on_lifecycle_transition (record m { lifecycles = insert id l m.lifecycles }) now written event,
    none,
  )

  unfoldable pub fire : Manager → ℕ → Bool → String → Trigger → Manager × Option ManagerError
  unfolding after_fire
  fire m now written id trigger = elim (lookup id m.lifecycles) [
    | none ↦ (m, some capsule_not_found)
    | some l ↦ after_fire m now written id (Lifecycle.fire engine l trigger)
  ]

  -- The named transitions.
  pub announce_capsule : Manager → ℕ → Bool → String → Manager × Option ManagerError
  unfolding fire
  announce_capsule m now written id = fire m now written id announce

  pub start_election : Manager → ℕ → Bool → String → Manager × Option ManagerError
  unfolding fire
  start_election m now written id = fire m now written id election_started

  pub win_election : Manager → ℕ → Bool → String → Manager × Option ManagerError
  unfolding fire
  win_election m now written id = fire m now written id election_won

  pub time_out_election : Manager → ℕ → Bool → String → Manager × Option ManagerError
  unfolding fire
  time_out_election m now written id = fire m now written id election_timeout

  pub start_execution : Manager → ℕ → Bool → String → Manager × Option ManagerError
  unfolding fire
  start_execution m now written id = fire m now written id execution_started

  pub mark_running : Manager → ℕ → Bool → String → Manager × Option ManagerError
  unfolding fire
  mark_running m now written id = fire m now written id container_ready

  pub fail_execution : Manager → ℕ → Bool → String → Manager × Option ManagerError
  unfolding fire
  fail_execution m now written id = fire m now written id execution_failed

  pub stop_capsule : Manager → ℕ → Bool → String → Manager × Option ManagerError
  unfolding fire
  stop_capsule m now written id = fire m now written id stop_requested

  pub mark_stopped : Manager → ℕ → Bool → String → Manager × Option ManagerError
  unfolding fire
  mark_stopped m now written id = fire m now written id container_stopped

  pub fail_node : Manager → ℕ → Bool → String → Manager × Option ManagerError
  unfolding fire
  fail_node m now written id = fire m now written id node_failed

  pub scale_up : Manager → ℕ → Bool → String → Manager × Option ManagerError
  unfolding fire
  scale_up m now written id = fire m now written id scale_up_needed

  pub scale_down : Manager → ℕ → Bool → String → Manager × Option ManagerError
  unfolding fire
  scale_down m now written id = fire m now written id scale_down_needed

  -- `stored` and `announced` are the two database statements of `Create`.
  unfoldable pub create :
      Manager → ℕ → Bool → Bool → String → String → CapsuleSpec → Manager × Option ManagerError
  unfolding emit fire
  create m now stored announced_written id cluster_id spec =
      let spec' = default_spec spec in
      let errors = validate_spec spec' in
      let c : Capsule = record {
        id = id;
        cluster_id = cluster_id;
        spec = spec';
        status = created;
        replicas = [];
        momentum = record {
          current = spec'.momentum_config.base;
          base = spec'.momentum_config.base;
          last_adjusted = now;
        };
        version = "1";
        created_at = now;
        updated_at = now;
      } in
      let (s, e) = Store.create m.store now stored c in
      let installed =
        emit
          (record m { store = s; lifecycles = insert id (new_lifecycle id created) m.lifecycles })
          now capsule_created c in
      if cluster_id == ""
      then (m, some cluster_id_required)
      else if not (is_nil errors)
      then (m, some (invalid_spec errors))
      else elim e [
        | some err ↦ (record m { store = s }, some (store_failed err))
        | none ↦ ((fire installed now announced_written id announce).0, none)
      ]

  unfoldable pub status_of : Manager → String → Option CapsuleStatus
  status_of m id = elim (lookup id m.lifecycles) [ none ↦ none | some l ↦ some l.machine ]
