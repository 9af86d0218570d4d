-- ===== src/Election/Topic.antt =====
-- `ClusterTopic` of election/topic.go: one node's view of a cluster's election topic. A channel is
-- the list of what it holds; the listener of a round is told from the others by `tag`, for its
-- pointer. Unmarshalling and the signatures of other packages are parameters.
mod Replay
mod Delivery
mod Handling
mod Tests
use falak.Prelude.{
  ℕ, zero, suc, ◌+◌, ◌-◌, Bool, true, false, not, ◌&&◌, List, [], ◌∷◌, ◌++◌, Option, none, some,
  String, Map, lookup, insert, delete, has, length, string_eq, nat_eq, pair_eq, ◌==◌, ltb, is_nil,
  keep, if◌then◌else◌,
}
use falak.Signing.{Bytes, ElectionMessage, canonical_content}
use falak.Election.Types.{Claim, ElectionFailed}

pub data Message : Type 0 where
  claim : Claim → Message
  failure : ElectionFailed → Message

pub record Listener : Type 0 where
  pub tag : ℕ
  pub capacity : ℕ
  pub claims : List Claim
  pub failures : List ElectionFailed
  pub closed : Bool

pub record BufferedMessage : Type 0 where
  pub received_at : ℕ
  pub message : Message

-- Capsule ID and replica ID.
abbrev pub MessageKey : Type 0
MessageKey = String × String

pub record ClusterTopic : Type 0 where
  pub cluster_path : String
  pub node_id : String
  pub listeners : Map MessageKey Listener
  pub buffered : Map MessageKey (List BufferedMessage)
  pub next_tag : ℕ

-- In nanoseconds.
abbrev pub buffer_ttl : ℕ
buffer_ttl = 3000000000

abbrev pub max_age : ℕ
max_age = 30000000000

unfoldable pub new_cluster_topic : String → String → ClusterTopic
new_cluster_topic path node = record {
  cluster_path = path;
  node_id = node;
  listeners = [];
  buffered = [];
  next_tag = 0;
}

unfoldable pub new_listener : ℕ → ℕ → Listener
new_listener tag buffer = record {
  tag = tag;
  capacity = buffer;
  claims = [];
  failures = [];
  closed = false;
}

-- A send that never blocks: a full or closed channel drops the message.
unfoldable pub deliver : Listener → Message → Listener
deliver l (claim c) =
    if l.closed
    then l
    else if ltb (length l.claims) l.capacity
    then record l { claims = l.claims ++ c ∷ [] }
    else l
deliver l (failure f) =
    if l.closed
    then l
    else if ltb (length l.failures) l.capacity
    then record l { failures = l.failures ++ f ∷ [] }
    else l

unfoldable pub close : Listener → Listener
close l = record l { closed = true }

unfoldable pub key_of : Message → MessageKey
key_of (claim c) = (c.capsule_id, c.replica_id)
key_of (failure f) = (f.capsule_id, f.replica_id)

-- A missing key of `buffered` reads as `nil`.
abbrev pub queue_of : Option (List BufferedMessage) → List BufferedMessage
queue_of none = []
queue_of (some msgs) = msgs

-- `t.buffered[key]`.
unfoldable pub queue_at : ClusterTopic → MessageKey → List BufferedMessage
queue_at t key = queue_of (lookup key t.buffered)

-- `dispatchClaim` and `dispatchFailure`.
unfoldable pub dispatch : ClusterTopic → ℕ → Message → ClusterTopic
unfolding key_of queue_at deliver
dispatch t now msg = elim (lookup (key_of msg) t.listeners) [
  | none ↦ record t {
    buffered =
        insert (key_of msg)
          (queue_at t (key_of msg) ++ record { received_at = now; message = msg } ∷ []) t.buffered;
  }
  | some l ↦ record t { listeners = insert (key_of msg) (deliver l msg) t.listeners }
]

-- The replay of `Listen`.
unfoldable pub replay : Listener → List BufferedMessage → Listener
unfolding deliver
replay l [] = l
replay l (msg ∷ msgs) = replay (deliver l msg.message) msgs

-- `if bufferSize <= 0 { bufferSize = 8 }`.
abbrev pub size_or_default : ℕ → ℕ
size_or_default zero = 8
size_or_default (suc n) = suc n

-- `Listen`: the topic and the listener that the caller holds. The listener it replaces is closed
-- and no longer reachable from the topic.
unfoldable pub listen : ClusterTopic → MessageKey → ℕ → ClusterTopic × Listener
unfolding replay new_listener queue_at
listen t key buffer_size =
    let l = replay (new_listener t.next_tag (size_or_default buffer_size)) (queue_at t key) in
    (
      record t {
        listeners = insert key l t.listeners;
        buffered = delete key t.buffered;
        next_tag = t.next_tag + 1;
      },
      l,
    )

-- The function that `Listen` returns: the entry goes only if it is still this listener.
unfoldable pub unlisten : ClusterTopic → MessageKey → Listener → ClusterTopic
unlisten t key l = elim (lookup key t.listeners) [
  | none ↦ t
  | some current ↦
      if current.tag == l.tag then record t { listeners = delete key t.listeners } else t
]

unfoldable pub is_fresh : ℕ → BufferedMessage → Bool
is_fresh now msg = ltb now (msg.received_at + buffer_ttl)

-- `sweepBuffer`, which ranges over the map.
unfoldable pub sweep_entries :
    ℕ → Map MessageKey (List BufferedMessage) → Map MessageKey (List BufferedMessage)
unfolding is_fresh
sweep_entries now [] = []
sweep_entries now ((key, msgs) ∷ rest) =
    let kept = keep (is_fresh now) msgs in
    let others = sweep_entries now rest in if is_nil kept then others else (key, kept) ∷ others

unfoldable pub sweep_buffer : ClusterTopic → ℕ → ClusterTopic
unfolding sweep_entries
sweep_buffer t now = record t { buffered = sweep_entries now t.buffered }

unfoldable pub stop : ClusterTopic → ClusterTopic
stop t = record t { listeners = []; buffered = [] }

pub record Envelope : Type 0 where
  pub content : ElectionMessage
  pub type_name : String
  pub sender : String
  pub signature : Bytes

-- Unmarshalling of the inner payload, by the envelope's type, and the verifier if there is one.
module _ (unmarshal_claim : Bytes → Option Claim) (unmarshal_failed : Bytes → Option ElectionFailed)
    (verifier : Option (String → Bytes → Bytes → Bool)) where
  unfoldable pub is_stale : ℕ → Envelope → Bool
  is_stale now e = elim e.content.timestamp [ none ↦ false | some ts ↦ ltb (ts + max_age) now ]

  unfoldable pub is_signed : Envelope → Bool
  is_signed e = elim verifier [
    | none ↦ true
    | some verify ↦ verify e.sender (canonical_content e.content) e.signature
  ]

  unfoldable pub message_of : Envelope → Option Message
  message_of e =
      if e.type_name == "claim"
      then (elim (unmarshal_claim e.content.payload) [ none ↦ none | some c ↦ some (claim c) ])
      else if e.type_name == "failed"
      then (elim (unmarshal_failed e.content.payload) [ none ↦ none | some f ↦ some (failure f) ])
      else none

  -- `handle` of an envelope that parsed.
  unfoldable pub handle : ClusterTopic → ℕ → Envelope → ClusterTopic
  unfolding is_stale is_signed message_of dispatch
  handle t now e =
      if e.sender == t.node_id
      then t
      else if is_stale now e
      then t
      else if not (is_signed e)
      then t
      else elim (message_of e) [ none ↦ t | some msg ↦ dispatch t now msg ]
