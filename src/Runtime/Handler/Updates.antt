-- ===== src/Runtime/Handler/Updates.antt =====
-- What runtime/handler.go makes of a stop after a rolling update.
use falak.Prelude.{false, [], ◌++◌, String, list_eq, nat_eq}
use falak.Shared.Paths.{Bytes}
use falak.Runtime.Handler.{
  Handler, pull, create, start, stop, remove, CapsuleSpec, effect, drop_watch, on_container_running,
  container_id,
}
use falak.Runtime.Handler.Rolling.{new_suffix}

-- The container that an update leaves running, and the handler then.
abbrev pub new_container : String → String → Bytes
new_container capsule_id replica_id = container_id capsule_id replica_id ++ new_suffix

swapped : Handler → String → String → CapsuleSpec → Handler
swapped h capsule_id replica_id spec =
    let old = container_id capsule_id replica_id in
    let began =
      effect
        (effect (effect h (pull spec.image false))
          (create (new_container capsule_id replica_id) spec.image []))
        (start (new_container capsule_id replica_id)) in
    on_container_running (effect (effect (drop_watch began old) (stop old)) (remove old))
      (new_container capsule_id replica_id) capsule_id spec
