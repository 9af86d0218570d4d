-- ===== src/Election/Topic/Tests.antt =====
-- The theorems about the election topic on concrete messages.
use falak.Prelude.{
  ℕ, ◌≡◌, refl, ◌≢◌, ◌⊎◌, Bool, true, false, [], ◌∷◌, Option, none, some, String, lookup,
  UniqueKeys, string_eq, pair_eq,
}
use mathlib.Core.Option
use falak.Signing.{Bytes, canonical_content}
use falak.Election.Types.{Claim, ElectionFailed}
use falak.Election.Topic.{
  Message, claim, BufferedMessage, MessageKey, ClusterTopic, Envelope, new_cluster_topic, dispatch,
  is_stale, message_of, handle,
}
use falak.Election.Topic.Handling.{handle-cases}

abbrev web_claim : String → Claim
web_claim node = record {
  capsule_id = "web";
  replica_id = "r1";
  cluster_path = "eu/b1/k";
  node_id = node;
  gravity_score = 80;
  timestamp_micros = 5;
}

abbrev arrived : ℕ → String → BufferedMessage
arrived at node = record { received_at = at; message = claim (web_claim node) }

abbrev web_key : MessageKey
web_key = ("web", "r1")

abbrev quiet : ClusterTopic
quiet = new_cluster_topic "eu/b1/k" "a"

abbrev queued : ClusterTopic
queued = record quiet { buffered = (web_key, arrived 1 "b" ∷ arrived 4000000000 "c" ∷ []) ∷ [] }

queued_unique : UniqueKeys queued.buffered
unfolding lookup
queued_unique = (refl, tt)

abbrev envelope : Envelope
envelope = record {
  content = record { kind = []; payload = []; sender_id = []; timestamp = some 1 };
  type_name = "claim";
  sender = "b";
  signature = 1 ∷ [];
}

abbrev unmarshal : Bytes → Option Claim
unmarshal bytes = some (web_claim "b")

abbrev unmarshal_failed : Bytes → Option ElectionFailed
unmarshal_failed bytes = none

abbrev verify : String → Bytes → Bytes → Bool
verify sender content signature = true

handle-cases_example :
    (handle unmarshal unmarshal_failed (some verify) quiet 2 envelope ≡ quiet)
    ⊎ ((envelope.sender ≢ quiet.node_id)
        × (is_stale unmarshal unmarshal_failed (some verify) 2 envelope ≡ false)
        × (verify envelope.sender (canonical_content envelope.content) envelope.signature ≡ true)
        × (msg : Message) × (message_of unmarshal unmarshal_failed (some verify) envelope
            ≡ some msg)
        × (handle unmarshal unmarshal_failed (some verify) quiet 2 envelope ≡ dispatch quiet 2 msg))
handle-cases_example = handle-cases unmarshal unmarshal_failed verify quiet 2 envelope
