-- ===== src/Capsule/Lifecycle/Tests.antt =====
-- The theorems about the lifecycle on concrete traces.
use falak.Prelude.{◌≤◌, ◌≡◌, refl, true, List, [], ◌∷◌, length}
use falak.Capsule.Types.{created, executing, running, stopped, status_valid}
use falak.Capsule.Lifecycle.{
  Trigger, announce, election_started, election_won, election_timeout, execution_started,
  container_ready, stop_requested, Lifecycle, permits, new_lifecycle, entered, fire,
}
use falak.Capsule.Lifecycle.Table.{table_engine}
use falak.Capsule.Lifecycle.Trace.{
  run, Within, way_to_running, running_needs_way, stopped_reachable,
}

-- One election times out, and a stop is refused on the way.
abbrev bumpy_way : List Trigger
bumpy_way =
    announce ∷ election_started ∷ election_timeout ∷ election_started ∷ election_won
    ∷ stop_requested ∷ execution_started ∷ container_ready ∷ []

abbrev executing_web : Lifecycle
executing_web = new_lifecycle "web" executing

bumpy_way-running : (run table_engine (new_lifecycle "web" created) bumpy_way).machine ≡ running
unfolding run fire entered permits new_lifecycle status_valid
bumpy_way-running = refl

running_needs_way_example : Within way_to_running bumpy_way
running_needs_way_example = running_needs_way table_engine "web" bumpy_way bumpy_way-running

executing_web-valid : status_valid executing_web.machine ≡ true
unfolding new_lifecycle status_valid
executing_web-valid = refl

stopped_reachable_example :
    (ts : List Trigger) × ((run table_engine executing_web ts).machine ≡ stopped) × (length ts ≤ 7)
stopped_reachable_example = stopped_reachable table_engine executing_web executing_web-valid
