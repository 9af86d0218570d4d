-- ===== src/Node/Capsules.antt =====
-- node/capsule_handler.go: the handler's state and the elections that it requests, with the orbits of
-- capsule/orbit/orbit.go that it joins. Whether a subscription and a publication succeed are
-- arguments. What the handler publishes is kept, latest first.
pub mod Handling
pub mod Events
pub mod Withdrawal
pub mod Reception
use falak.Prelude.{
  ℕ, zero, suc, Bool, true, false, not, ◌&&◌, ◌||◌, List, [], ◌∷◌, ◌++◌, Option, none, some, String,
  Map, string_eq, ◌==◌, lookup, insert, delete, has, any, keep, if◌then◌else◌,
}
use falak.Prelude.Int.{pos, negsuc}
use falak.Capsule.Store
use falak.Capsule.Store.{Capsule, ReplicaState}
use falak.Capsule.Manager.{Manager}
use falak.Election.Types.{Reason, initial, node_failure}
use falak.Shared.Paths.{Bytes, bytes}
use falak.Node.Slots.{replica_slot_id, initial_replica_count}
use falak.Node.Wire.Messages.{CapsuleMessage}

pub record ElectionRequested : Type 0 where
  pub capsule_id : String
  pub replica_id : Bytes
  pub reason : Reason
  pub cluster_path : String
  pub previous_node_id : String
  pub priority : ℕ

pub data Notice : Type 0 where
  created updated received announced_to_orbit : String → String → Notice
  withdrawn : String → String → String → Notice
  election_requested : ElectionRequested → Notice
  scale_up_needed scale_down_needed scaled_to_zero : String → String → String → Notice

-- What goes to an orbit of a cluster.
pub data OrbitMessage : Type 0 where
  announcement : String → String → CapsuleMessage → OrbitMessage
  withdrawal : String → String → String → String → OrbitMessage

-- `orbits` maps a cluster that is set up to the orbits that are joined there; such a cluster has an
-- announcer and a deduplicator too.
pub record CapsuleHandler (R : Type 0) : Type 0 where
  pub node_id : String
  pub manager : Manager
  pub orbits : Map String (List String)
  pub monitored : Map String R
  pub notices : List Notice
  pub sent : List OrbitMessage
  pub forgotten : List String
  pub has_forgetter : Bool

abbrev priority_initial : ℕ
priority_initial = 50

abbrev pub priority_scale_up : ℕ
priority_scale_up = 60

abbrev priority_node_failure : ℕ
priority_node_failure = 100

-- The requests for slots below a count, the last first.
pub initial_requests : Capsule → ℕ → List Notice
initial_requests c zero = []
initial_requests c (suc i) =
    election_requested (record {
      capsule_id = c.id;
      replica_id = replica_slot_id (pos i);
      reason = initial;
      cluster_path = c.cluster_id;
      previous_node_id = "";
      priority = priority_initial;
    })
    ∷ initial_requests c i

-- The requests for the replicas that a node had, the last first.
pub replica_requests : Capsule → String → String → String → List ReplicaState → List Notice
replica_requests c node cluster previous [] = []
replica_requests c node cluster previous (r ∷ rs) =
    let rest = replica_requests c node cluster previous rs in
    if r.node_id == node
    then rest
      ++ election_requested (record {
        capsule_id = c.id;
        replica_id = bytes r.replica_id;
        reason = node_failure;
        cluster_path = cluster;
        previous_node_id = previous;
        priority = priority_node_failure;
      })
        ∷ []
    else rest

pub orphan_requests : String → String → List Capsule → List Notice
unfolding replica_requests
orphan_requests node cluster [] = []
orphan_requests node cluster (c ∷ cs) =
    orphan_requests node cluster cs ++ replica_requests c node cluster node c.replicas

module _ {R : Type 0} where
  pub notify : CapsuleHandler R → Notice → CapsuleHandler R
  notify h n = record h { notices = n ∷ h.notices }

  pub new_capsule_handler : String → Manager → CapsuleHandler R
  new_capsule_handler node_id m = record {
    node_id = node_id;
    manager = m;
    orbits = [];
    monitored = [];
    notices = [];
    sent = [];
    forgotten = [];
    has_forgetter = false;
  }

  pub setup_cluster : CapsuleHandler R → String → CapsuleHandler R
  setup_cluster h cluster =
      if has (lookup cluster h.orbits) then h else record h { orbits = insert cluster [] h.orbits }

  pub leave_cluster : CapsuleHandler R → String → CapsuleHandler R
  leave_cluster h cluster = record h { orbits = delete cluster h.orbits }

  pub is_joined : CapsuleHandler R → String → String → Bool
  is_joined h cluster orbit = elim (lookup cluster h.orbits) [
    | none ↦ false
    | some names ↦ any (λ n. n == orbit) names
  ]

  -- `Join` of an orbit, with its error.
  pub join_orbit : CapsuleHandler R → Bool → String → String → CapsuleHandler R × Bool
  unfolding setup_cluster is_joined
  join_orbit h subscribes cluster orbit =
      let ready = setup_cluster h cluster in
      if is_joined ready cluster orbit || not subscribes
      then (ready, false)
      else (elim (lookup cluster ready.orbits) [
        | none ↦ (ready, false)
        | some names ↦ (record ready { orbits = insert cluster (orbit ∷ names) ready.orbits }, true)
      ])

  -- `Leave` of an orbit.
  pub leave_orbit : CapsuleHandler R → String → String → CapsuleHandler R × Bool
  unfolding is_joined
  leave_orbit h cluster orbit = elim (lookup cluster h.orbits) [
    | none ↦ (h, false)
    | some names ↦
        if is_joined h cluster orbit
        then (
          record h { orbits = insert cluster (keep (λ n. not (n == orbit)) names) h.orbits },
          true,
        )
        else (h, false)
  ]

  -- `Publish` to an orbit that is joined.
  pub publish_to_orbit :
      CapsuleHandler R → Bool → String → String → OrbitMessage → CapsuleHandler R × Bool
  unfolding is_joined
  publish_to_orbit h publishes cluster orbit message =
      if is_joined h cluster orbit && publishes
      then (record h { sent = message ∷ h.sent }, true)
      else (h, false)

  pub request_initial_elections : CapsuleHandler R → Capsule → CapsuleHandler R
  unfolding initial_requests
  request_initial_elections h c = elim (initial_replica_count c.spec.replicas) [
    | pos n ↦ record h { notices = initial_requests c n ++ h.notices }
    | negsuc n ↦ h
  ]

  pub on_node_failed : CapsuleHandler R → String → String → CapsuleHandler R
  unfolding orphan_requests
  on_node_failed h node cluster = record h {
    notices = orphan_requests node cluster (Store.list h.manager.store) ++ h.notices;
  }

  pub on_container_crash : CapsuleHandler R → String → CapsuleHandler R
  unfolding replica_requests
  on_container_crash h id = elim (Store.get h.manager.store id) [
    | none ↦ h
    | some c ↦ record h {
      notices = replica_requests c h.node_id c.cluster_id "" c.replicas ++ h.notices;
    }
  ]
