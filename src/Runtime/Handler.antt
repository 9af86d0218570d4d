-- ===== src/Runtime/Handler.antt =====
-- runtime/handler.go. Calls of the runtime, the stores and the lifecycle are effects, kept latest
-- first; whether a call succeeds and what an inspection shows are arguments. A watcher goroutine
-- is an entry of `watchers` as long as its context is alive, under a number of its own; the health
-- checker and the collection of statistics live by the same context. An error of `RecordSnapshot`,
-- of the broadcast or of the lifecycle is only logged. A watcher whose context has ended does nothing
-- more: with it, its calls of the runtime fail.
pub mod Rolling
mod Watches
mod Runs
mod Updates
mod Tests
use falak.Prelude.{
  ℕ, zero, suc, ◌+◌, Bool, true, false, not, ◌&&◌, ◌||◌, List, [], ◌∷◌, ◌++◌, Option, none, some,
  String, Map, lookup, insert, delete, string_eq, nat_eq, list_eq, ◌==◌, ltb, if◌then◌else◌, has,
}
use falak.Shared.Paths.{Bytes, bytes}

pub data ContainerStatus : Type 0 where
  created running stopped checkpointed failed unknown : ContainerStatus

-- The parts of the spec that the flow depends on.
pub record CapsuleSpec : Type 0 where
  pub image : String
  pub image_digest : String
  pub has_registry : Bool
  pub port_mappings : List (ℕ × ℕ)
  pub has_health_check : Bool
  pub snapshot_ttl : ℕ
  pub restart_limit : ℕ

pub data Failure : Type 0 where
  spec_lookup pull_failed create_failed start_failed restart_failed unhealthy : Failure
  exited : ℕ → ℕ → Failure

pub data Effect : Type 0 where
  pull : String → Bool → Effect
  create : Bytes → String → List (ℕ × ℕ) → Effect
  start stop remove checkpoint : Bytes → Effect
  restore : Bytes → List (ℕ × ℕ) → Effect
  mark_running mark_stopped : String → Effect
  mark_failed : String → Failure → Effect
  mark_in_use touch_access broadcast : String → String → Effect
  record_snapshot : String → String → ℕ → Effect

pub record Watcher : Type 0 where
  pub container : Bytes
  pub capsule_id : String
  pub restart_limit : ℕ
  pub local_restarts : ℕ

-- `running` maps a container to the number of its watcher.
pub record Handler : Type 0 where
  pub running : Map Bytes ℕ
  pub watchers : Map ℕ Watcher
  pub next : ℕ
  pub effects : List Effect
  pub has_snapshot_store : Bool
  pub has_snapshot_bc : Bool

-- `falak-<capsule>-<replica>`.
abbrev dash : ℕ
dash = b'-'

pub container_id : String → String → Bytes
container_id capsule_id replica_id =
    bytes "falak-" ++ (bytes capsule_id ++ (dash ∷ bytes replica_id))

pub effect : Handler → Effect → Handler
effect h e = record h { effects = e ∷ h.effects }

-- `cancel()` of a watch.
pub cancel : Handler → ℕ → Handler
cancel h w = record h { watchers = delete w h.watchers }

-- `if cancel, ok := h.running[cID]; ok { cancel(); delete(h.running, cID) }`.
pub drop_watch : Handler → Bytes → Handler
unfolding cancel
drop_watch h c = elim (lookup c h.running) [
  | none ↦ h
  | some w ↦ record (cancel h w) { running = delete c h.running }
]

-- `Stop`: every context ends with that of the handler.
pub stop_all : Handler → Handler
stop_all h = record h { running = []; watchers = [] }

-- An older watcher of the container is cancelled.
pub cancel_old : Handler → Bytes → Handler
unfolding cancel
cancel_old h c = elim (lookup c h.running) [ none ↦ h | some old ↦ cancel h old ]

-- A watcher under a new number.
pub begin_watch : Handler → Watcher → Handler
begin_watch h x = record h {
  running = insert x.container h.next h.running;
  watchers = insert h.next x h.watchers;
  next = h.next + 1;
}

pub on_container_running : Handler → Bytes → String → CapsuleSpec → Handler
unfolding effect cancel_old begin_watch
on_container_running h c capsule_id spec =
    begin_watch (cancel_old (effect h (mark_running capsule_id)) c) (record {
      container = c;
      capsule_id = capsule_id;
      restart_limit = spec.restart_limit;
      local_restarts = 0;
    })

-- Whether the calls of a start succeed.
pub record Outcomes : Type 0 where
  pub pulls : Bool
  pub creates : Bool
  pub starts : Bool
  pub restores : Bool

-- The capture of a snapshot that follows in the background is `capture_snapshot`.
pub cold_start : Handler → Bytes → String → CapsuleSpec → Outcomes → Handler
unfolding effect on_container_running
cold_start h c capsule_id spec o =
    let pulled = effect h (pull spec.image spec.has_registry) in
    let made = effect pulled (create c spec.image spec.port_mappings) in
    let began = effect made (start c) in
    if not o.pulls
    then effect pulled (mark_failed capsule_id pull_failed)
    else if not o.creates
    then effect made (mark_failed capsule_id create_failed)
    else if not o.starts
    then effect (effect began (remove c)) (mark_failed capsule_id start_failed)
    else on_container_running began c capsule_id spec

pub restore_from_snapshot : Handler → Bytes → String → String → CapsuleSpec → Outcomes → Handler
unfolding effect cold_start on_container_running
restore_from_snapshot h c capsule_id tag spec o =
    let tried = effect h (restore c spec.port_mappings) in
    if not o.restores
    then cold_start tried c capsule_id spec o
    else on_container_running
        (effect (effect tried (mark_in_use capsule_id tag)) (touch_access capsule_id tag)) c
        capsule_id spec

pub tag_of : CapsuleSpec → String
tag_of spec = if spec.image_digest == "" then spec.image else spec.image_digest

-- `local` and `pulled`: a snapshot is in the store, or comes from a peer.
pub start_container :
    Handler → String → String → Option CapsuleSpec → Bool → Bool → Outcomes → Handler
unfolding restore_from_snapshot cold_start effect container_id tag_of
start_container h capsule_id replica_id none local pulled o =
    effect h (mark_failed capsule_id spec_lookup)
start_container h capsule_id replica_id (some spec) local pulled o =
    let c = container_id capsule_id replica_id in
    if (h.has_snapshot_store && local) || pulled
    then restore_from_snapshot h c capsule_id (tag_of spec) spec o
    else cold_start h c capsule_id spec o

-- The default lifetime of a snapshot, 72 hours in seconds.
abbrev default_ttl : ℕ
default_ttl = 259200

pub capture_snapshot : Handler → Bytes → String → CapsuleSpec → Bool → Bool → Handler
unfolding effect drop_watch tag_of
capture_snapshot h c capsule_id spec checkpoints starts =
    let tried = effect h (checkpoint c) in
    let ttl = if spec.snapshot_ttl == 0 then default_ttl else spec.snapshot_ttl in
    let again = effect (effect tried (record_snapshot capsule_id (tag_of spec) ttl)) (start c) in
    if not h.has_snapshot_store
    then h
    else if not checkpoints
    then tried
    else if not starts
    then effect (drop_watch again c) (mark_failed capsule_id restart_failed)
    else if h.has_snapshot_bc
    then effect again (broadcast capsule_id (tag_of spec))
    else again

-- What a tick of a watcher sees.
pub data Seen : Type 0 where
  inspect_failed : Seen
  status_is : ContainerStatus → ℕ → Seen

pub is_down : ContainerStatus → Bool
is_down failed = true
is_down stopped = true
is_down _ = false

-- The watcher reports and ends.
pub give_up : Handler → ℕ → Watcher → ℕ → Handler
unfolding effect cancel
give_up h w watcher code =
    effect (record (cancel h w) { running = delete watcher.container h.running })
      (mark_failed watcher.capsule_id (exited code watcher.local_restarts))

-- A local restart; `starts` is its outcome.
pub restart : Handler → ℕ → Watcher → ℕ → Bool → Handler
unfolding effect give_up
restart h w watcher code starts =
    let counted = record watcher { local_restarts = watcher.local_restarts + 1 } in
    let tried = record (effect h (start watcher.container)) {
      watchers = insert w counted h.watchers;
    } in
    if starts then tried else give_up tried w counted code

-- The container of a watcher has exited with `code`.
pub on_exit : Handler → ℕ → Watcher → ℕ → Bool → Handler
unfolding restart give_up
on_exit h w watcher code starts =
    if ltb watcher.local_restarts watcher.restart_limit
    then restart h w watcher code starts
    else give_up h w watcher code

pub tick : Handler → ℕ → Seen → Bool → Handler
unfolding on_exit is_down
tick h w inspect_failed starts = h
tick h w (status_is status code) starts = elim (lookup w h.watchers) [
  | none ↦ h
  | some watcher ↦ if is_down status then on_exit h w watcher code starts else h
]

-- The callback of a health checker: the watch ends, and its entry of `running` stays.
pub on_unhealthy : Handler → ℕ → Handler
unfolding effect cancel
on_unhealthy h w = elim (lookup w h.watchers) [
  | none ↦ h
  | some watcher ↦ cancel (effect h (mark_failed watcher.capsule_id unhealthy)) w
]
