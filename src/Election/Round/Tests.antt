-- ===== src/Election/Round/Tests.antt =====
-- The theorems about rounds on a concrete run of one node.
use falak.Prelude.{
  ℕ, ◌≡◌, refl, true, false, List, [], ◌∷◌, none, some, String, lookup, insert, string_eq, pair_eq,
}
use falak.Election.Types.{Request, Decision, scale_up}
use falak.Election.Topic.{MessageKey}
use falak.Election.Round.{
  awaiting_verdict, in_tiebreak, Round, Node, new_node, publish_due, publish_result,
  deadline_passed, has_local_claim, try_claim_capsule, put_phase, reserve, on_publish_wait,
  on_published, advance_in, wake_round, begin_round, request_round,
}
use falak.Election.Round.Slots.{HolderAt}
use falak.Election.Round.Exclusive.{
  Event, requested, woken, step, key_at, run, AllSucceed, run-one_replica,
}
use falak.Election.Round.Failing.{deadline-frees_slot}

abbrev replica : String → Request
replica rid = record {
  capsule_id = "web";
  replica_id = rid;
  cluster_path = "eu/b1/k";
  reason = scale_up;
  previous_node_id = "";
  priority = 0;
  created_at = 0;
}

abbrev later : Decision
later = record { eligible = true; score = 80; publish_at = 5; why = "" }

abbrev r1 : MessageKey
r1 = ("web", "r1")

abbrev r2 : MessageKey
r2 = ("web", "r2")

-- Both replicas wait to publish; the first publishes, the second steps aside.
abbrev events : List (ℕ × Event)
events =
    (0, requested (replica "r1") later)
    ∷ (1, requested (replica "r2") later)
    ∷ (5, woken r1 publish_due)
    ∷ (5, woken r2 publish_due)
    ∷ (6, woken r1 (publish_result none))
    ∷ []

abbrev node_a : Node
node_a = new_node "a"

events-AllSucceed : AllSucceed node_a events
unfolding AllSucceed step key_at new_node has_local_claim try_claim_capsule put_phase reserve
    on_publish_wait on_published advance_in wake_round begin_round request_round lookup insert
events-AllSucceed = (refl, (refl, (refl, (refl, (refl, tt)))))

r1-holds : HolderAt (run node_a events) "web" r1
unfolding run step new_node has_local_claim try_claim_capsule put_phase reserve on_publish_wait
    on_published advance_in wake_round begin_round request_round lookup insert
r1-holds =
    (record { request = replica "r1"; decision = later; phase = in_tiebreak }, refl, refl, refl)

run-one_replica_example : r1 ≡ r1
run-one_replica_example = run-one_replica "a" "web" events r1 r1 events-AllSucceed r1-holds r1-holds

-- The second replica's round has stepped aside, and its deadline passes.
abbrev aside : Round
aside = record { request = replica "r2"; decision = later; phase = awaiting_verdict }

abbrev both : Node
both = record (new_node "a") {
  local_claims = ("web", true) ∷ [];
  rounds =
      (r1, record { request = replica "r1"; decision = later; phase = in_tiebreak })
      ∷ (r2, aside)
      ∷ [];
}

r2-aside : lookup r2 both.rounds ≡ some aside
unfolding lookup
r2-aside = refl

deadline-frees_slot_example :
    (has_local_claim (wake_round both r2 deadline_passed 9) "web" ≡ false)
    × (lookup r1 (wake_round both r2 deadline_passed 9).rounds ≡ lookup r1 both.rounds)
deadline-frees_slot_example = deadline-frees_slot both r2 r1 aside 9 r2-aside refl refl refl
