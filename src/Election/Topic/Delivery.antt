-- ===== src/Election/Topic/Delivery.antt =====
-- No claim is lost between its arrival and the listener in election/topic.go, whether the round
-- registers before or after it.
use falak.Prelude.{◌≡◌, List, none, lookup, string_eq, nat_eq, pair_eq}
use mathlib.Core.Option
use falak.Election.Topic.{BufferedMessage, MessageKey, ClusterTopic, queue_at}

-- With no listener for a key its messages queue up, in order.
Queued : ClusterTopic → MessageKey → List BufferedMessage → Type 0
Queued t key bs = (lookup key t.listeners ≡ none) × (queue_at t key ≡ bs)
