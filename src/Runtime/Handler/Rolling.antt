-- ===== src/Runtime/Handler/Rolling.antt =====
-- RollingUpdate and StopContainer of runtime/handler.go.
use falak.Prelude.{
  Bool, true, false, not, [], ◌++◌, Option, none, some, String, string_eq, nat_eq, list_eq,
  if◌then◌else◌,
}
use falak.Shared.Paths.{Bytes, bytes}
use falak.Runtime.Handler.{
  Handler, CapsuleSpec, Outcomes, pull, create, start, stop, remove, mark_stopped, effect,
  drop_watch, on_container_running, container_id,
}

pub data UpdateError : Type 0 where
  update_pull update_create update_start not_healthy : UpdateError

abbrev pub new_suffix : Bytes
new_suffix = bytes "-new"

-- `healthy` is what the probes or the inspection of the new container find.
unfoldable pub rolling_update :
    Handler → String → String → CapsuleSpec → Outcomes → Bool → Handler × Option UpdateError
unfolding effect drop_watch on_container_running container_id
rolling_update h capsule_id replica_id spec o healthy =
    let old = container_id capsule_id replica_id in
    let new = old ++ new_suffix in
    let pulled = effect h (pull spec.image false) in
    let made = effect pulled (create new spec.image []) in
    let began = effect made (start new) in
    if not o.pulls
    then (pulled, some update_pull)
    else if not o.creates
    then (made, some update_create)
    else if not o.starts
    then (effect began (remove new), some update_start)
    else if not healthy
    then (effect (effect began (stop new)) (remove new), some not_healthy)
    else (
      on_container_running (effect (effect (drop_watch began old) (stop old)) (remove old)) new
          capsule_id spec,
      none,
    )

-- The error of `runtime.Stop` is returned.
unfoldable pub stop_container : Handler → String → String → Bool → Handler × Bool
unfolding effect drop_watch container_id
stop_container h capsule_id replica_id stops =
    let c = container_id capsule_id replica_id in
    let asked = effect (drop_watch h c) (stop c) in
    if stops
    then (effect (effect asked (remove c)) (mark_stopped capsule_id), true)
    else (asked, false)
