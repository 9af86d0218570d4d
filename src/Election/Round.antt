-- ===== src/Election/Round.antt =====
-- The rounds of election/manager.go (`runElection`, `waitForRemoteVerdict`, `report` and the local
-- claim slots), as one node's state and its steps: each stretch of a round between two waits is one
-- step, and the steps of the rounds interleave. What the `select` of a wait picks is `Wake`; the
-- step also takes the time. An entry of
-- `inflight` and its round are one entry of `rounds`, which stays with its outcome when the round
-- ends (`is_running` tells the two apart) until a request for the same replica takes its place.
mod Slots
mod Moves
mod Exclusive
mod Failing
mod Tests
use Prim.Native.String.{◌++◌}
use falak.Prelude.{
  ℕ, ◌<◌, Bool, true, false, not, List, [], ◌∷◌, Option, none, some, String, Map, lookup, insert,
  delete, string_eq, pair_eq, ◌==◌, ltb, if◌then◌else◌,
}
use falak.Election.Types.{
  Request, Decision, Claim, ElectionFailed, Outcome, won, lost, failed, is_better, claim_of,
}
use falak.Election.Topic.{MessageKey}

pub data Phase : Type 0 where
  awaiting_verdict awaiting_publish in_tiebreak panicked : Phase
  publishing : ℕ → Phase
  finished : Outcome → Phase

pub record Round : Type 0 where
  pub request : Request
  pub decision : Decision
  pub phase : Phase

pub record Node : Type 0 where
  pub node_id : String
  pub local_claims : Map String Bool
  pub rounds : Map MessageKey Round
  pub published : List Claim
  pub reports : List (Request × Outcome)

unfoldable pub new_node : String → Node
new_node id = record { node_id = id; local_claims = []; rounds = []; published = []; reports = [] }

pub data Wake : Type 0 where
  cancelled claims_closed failures_closed publish_due deadline_passed tiebreak_over : Wake
  rival : Claim → Wake
  remote_failure : ElectionFailed → Wake
  publish_result : Option String → Wake

abbrev pub key_of : Request → MessageKey
key_of req = (req.capsule_id, req.replica_id)

unfoldable pub is_running : Round → Bool
is_running r = elim r.phase [ finished o ↦ false | panicked ↦ false | _ ↦ true ]

-- `m.localClaims[id]`, false for a missing entry.
unfoldable pub has_local_claim : Node → String → Bool
has_local_claim n id = elim (lookup id n.local_claims) [ none ↦ false | some b ↦ b ]

unfoldable pub release_capsule_claim : Node → String → Node
release_capsule_claim n id = record n { local_claims = delete id n.local_claims }

-- `tryClaimCapsule`.
unfoldable pub try_claim_capsule : Node → String → Node × Bool
unfolding has_local_claim
try_claim_capsule n id =
    if has_local_claim n id
    then (n, false)
    else (record n { local_claims = insert id true n.local_claims }, true)

unfoldable pub forget_capsule : Node → String → Node
unfolding release_capsule_claim
forget_capsule n id = release_capsule_claim n id

unfoldable pub put_phase : Node → Round → Phase → Node
put_phase n r phase = record n {
  rounds = insert (key_of r.request) (record r { phase = phase }) n.rounds;
}

-- `report`, which ends the round. A failure releases the capsule's claim slot.
unfoldable pub report : Node → Round → Outcome → Node
unfolding release_capsule_claim put_phase
report n r (failed why) =
    let n' = release_capsule_claim n r.request.capsule_id in
    record (put_phase n' r (finished (failed why))) {
      reports = (r.request, failed why) ∷ n.reports;
    }
report n r outcome = record (put_phase n r (finished outcome)) {
  reports = (r.request, outcome) ∷ n.reports;
}

-- The reservation of the claim slot, before the claim is handed to the topic.
unfoldable pub reserve : Node → Round → ℕ → Node
unfolding try_claim_capsule put_phase
reserve n r now =
    let (n', claimed) = try_claim_capsule n r.request.capsule_id in
    if claimed then put_phase n' r (publishing now) else put_phase n r awaiting_verdict

unfoldable pub on_publish_wait : Node → Round → Wake → ℕ → Node
unfolding report reserve put_phase
on_publish_wait n r cancelled now = report n r (failed "context cancelled")
on_publish_wait n r (remote_failure f) now = report n r (failed ("remote failure: " ++ f.why))
on_publish_wait n r (rival claim) now =
    if is_better claim r.decision n.node_id
    then report n r (lost claim.node_id claim.gravity_score)
    else reserve n r now
on_publish_wait n r publish_due now = reserve n r now
on_publish_wait n r deadline_passed now = report n r (failed "election timeout")
on_publish_wait n r claims_closed now = put_phase n r panicked
on_publish_wait n r failures_closed now = put_phase n r panicked
on_publish_wait n r _ now = n

-- What `topic.PublishClaim` returned.
unfoldable pub on_published : Node → Round → ℕ → Wake → Node
unfolding release_capsule_claim report put_phase
on_published n r at (publish_result (some err)) =
    report (release_capsule_claim n r.request.capsule_id) r (failed ("publish failed: " ++ err))
on_published n r at (publish_result none) = record (put_phase n r in_tiebreak) {
  published = claim_of r.request n.node_id r.decision at ∷ n.published;
}
on_published n r at _ = n

unfoldable pub on_tiebreak : Node → Round → Wake → Node
unfolding report release_capsule_claim put_phase
on_tiebreak n r cancelled = report n r (failed "context cancelled")
on_tiebreak n r (rival claim) =
    if is_better claim r.decision n.node_id
    then report (release_capsule_claim n r.request.capsule_id) r
        (lost claim.node_id claim.gravity_score)
    else n
on_tiebreak n r tiebreak_over = report n r (won n.node_id r.decision.score)
on_tiebreak n r claims_closed = put_phase n r panicked
on_tiebreak n r _ = n

-- `waitForRemoteVerdict`.
unfoldable pub on_verdict_wait : Node → Round → Wake → Node
unfolding report
on_verdict_wait n r cancelled = report n r (failed "context cancelled")
on_verdict_wait n r (rival claim) = report n r (lost claim.node_id claim.gravity_score)
on_verdict_wait n r claims_closed = report n r (failed "claim channel closed")
on_verdict_wait n r (remote_failure f) = report n r (failed ("remote failure: " ++ f.why))
on_verdict_wait n r deadline_passed = report n r (failed "election timeout (no claim heard)")
on_verdict_wait n r _ = n

-- The wait that a round in a phase is at.
unfoldable pub advance_in : Phase → Node → Round → Wake → ℕ → Node
unfolding on_publish_wait on_published on_tiebreak on_verdict_wait
advance_in awaiting_verdict n r wake now = on_verdict_wait n r wake
advance_in awaiting_publish n r wake now = on_publish_wait n r wake now
advance_in (publishing at) n r wake now = on_published n r at wake
advance_in in_tiebreak n r wake now = on_tiebreak n r wake
advance_in panicked n r wake now = n
advance_in (finished o) n r wake now = n

unfoldable pub wake_round : Node → MessageKey → Wake → ℕ → Node
unfolding advance_in
wake_round n key wake now = elim (lookup key n.rounds) [
  | none ↦ n
  | some r ↦ advance_in r.phase n r wake now
]

-- `runElection` up to its first wait, after the strategy has decided.
unfoldable pub begin_round : Node → Request → Decision → ℕ → Node
unfolding has_local_claim put_phase reserve
begin_round n req decision now =
    let r : Round = record { request = req; decision = decision; phase = awaiting_verdict } in
    if not decision.eligible
    then put_phase n r awaiting_verdict
    else if has_local_claim n req.capsule_id
    then put_phase n r awaiting_verdict
    else if ltb now decision.publish_at
    then put_phase n r awaiting_publish
    else reserve n r now

-- The deduplication of `HandleRequest`: one running round for a replica.
unfoldable pub request_round : Node → Request → Decision → ℕ → Node
unfolding is_running begin_round
request_round n req decision now = elim (lookup (key_of req) n.rounds) [
  | none ↦ begin_round n req decision now
  | some r ↦ if is_running r then n else begin_round n req decision now
]
