-- ===== src/Bridge/Shared.antt =====
-- crates/rsrpc-bridge/src/{bridge,consumer}.rs: the shared state, and the fan-out to the consumers.
-- A consumer's outbox is the environment's: it accepts or refuses each frame.
pub mod Fanout
use discord_rich_presence.Prelude.{
  Bytes, ℕ, ◌+◌, ◌%◌, ◌^◌, String, Bool, true, false, Option, none, some, List, [], ◌∷◌, ◌++◌,
  length, if◌then◌else◌, string_key, unwrap_or,
}
use discord_rich_presence.Prelude.HashMap.{HashMap, insert, remove}
use discord_rich_presence.Types.Ids.{AppId, SocketId, u64_mod}
use discord_rich_presence.Types.Cmd.{ActivityCmd}
use discord_rich_presence.Protocol.Flood.{RecentActivities}
use discord_rich_presence.Protocol.Cached.{CachedActivity}
use discord_rich_presence.Bridge.Handoff.{HandoffState}
use discord_rich_presence.Bridge.Replay.{ReplayCache, prune_cache}

pub data BridgeProtocol : Type 0 where
  json msgpack : BridgeProtocol

abbrev pub ClientId : Type 0
ClientId = ℕ

-- `Message::Text` and `Message::Binary`
pub data Message : Type 0 where
  text : Bytes → Message
  binary : Bytes → Message

abbrev pub ConsumerMap : Type 0
ConsumerMap = HashMap ClientId BridgeProtocol

-- `sent` holds the frames that outboxes have accepted, in order.
pub record Shared : Type 0 where
  pub consumers : ConsumerMap
  pub cache : ReplayCache
  pub activity_seq : ℕ
  pub last_process : HashMap AppId ℕ
  pub handoff : HandoffState
  pub recent : RecentActivities
  pub dirty : Bool
  pub dropped_broadcasts : ℕ
  pub sent : List (ClientId × Message)

-- Whether the outbox of a client takes the frame that would be the n-th to be sent.
abbrev pub Outboxes : Type 0
Outboxes = ℕ → ClientId → Bool

-- The consumers that stay, how many are pruned, and the frames sent so far.
pub record Delivery : Type 0 where
  pub kept : ConsumerMap
  pub dead : ℕ
  pub log : List (ClientId × Message)

abbrev pub keep : ClientId → BridgeProtocol → Delivery → Delivery
keep id protocol d = record d { kept = (id, protocol) ∷ d.kept }

-- One pass over the consumers: `frame` is the message for a protocol, if it gets one.
unfoldable pub deliver :
    Outboxes
    → (BridgeProtocol → Option Message)
    → ConsumerMap
    → List (ClientId × Message)
    → Delivery
deliver accepts frame [] log = record { kept = []; dead = 0; log = log }
deliver accepts frame ((id, protocol) ∷ cs) log = elim (frame protocol) [
  | none ↦ keep id protocol (deliver accepts frame cs log)
  | some message ↦ elim (accepts (length log) id) [
    | true ↦ keep id protocol (deliver accepts frame cs (log ++ (id, message) ∷ []))
    | false ↦ let d = deliver accepts frame cs log in record d { dead = d.dead + 1 }
  ]
]

abbrev pub encoded : CachedActivity → BridgeProtocol → Message
encoded payload json = text payload.json
encoded payload msgpack = binary payload.msgpack

unfoldable pub settle_delivery : Shared → Delivery → Shared
settle_delivery s d = record s {
  consumers = d.kept;
  dropped_broadcasts = (s.dropped_broadcasts + d.dead) % u64_mod;
  sent = d.log;
}

-- A send that fails prunes its consumer. With no consumers nothing is done.
unfoldable pub send_to_all : Outboxes → CachedActivity → Shared → Shared
unfolding deliver settle_delivery
send_to_all accepts payload s = elim s.consumers [
  | [] ↦ s
  | _ ∷ _ ↦ settle_delivery s (deliver accepts (λ p. some (encoded payload p)) s.consumers s.sent)
]

-- The serializations of a command, which may fail.
pub record CmdCodec : Type 0 where
  pub cmd_json : ActivityCmd → Option Bytes
  pub cmd_msgpack : ActivityCmd → Option Bytes

abbrev pub only_json : Option Bytes → BridgeProtocol → Option Message
only_json none p = none
only_json (some b) json = some (text b)
only_json (some b) msgpack = none

abbrev pub only_msgpack : Option Bytes → BridgeProtocol → Option Message
only_msgpack none p = none
only_msgpack (some b) json = none
only_msgpack (some b) msgpack = some (binary b)

-- First a pass over the JSON consumers, then one over the MessagePack consumers.
unfoldable pub broadcast_raw : Outboxes → CmdCodec → ActivityCmd → Shared → Shared
unfolding deliver settle_delivery
broadcast_raw accepts codec cmd s =
    let s' =
      settle_delivery s (deliver accepts (only_json (codec.cmd_json cmd)) s.consumers s.sent) in
    settle_delivery s' (deliver accepts (only_msgpack (codec.cmd_msgpack cmd)) s'.consumers s'.sent)

abbrev pub next_seq : ℕ → ℕ
next_seq n = (n + 1) % u64_mod

-- The replay cache after a payload: a clear evicts, anything else is stamped and the cache pruned.
unfoldable pub cache_payload : CachedActivity → SocketId → Shared → Shared
unfolding prune_cache
cache_payload payload socket_id s =
    if payload.is_clear then record s { cache = remove s.cache socket_id } else record s {
      activity_seq = next_seq s.activity_seq;
      cache = prune_cache (insert s.cache socket_id (payload, next_seq s.activity_seq));
    }

unfoldable pub broadcast_activity : Outboxes → CachedActivity → SocketId → Shared → Shared
unfolding cache_payload send_to_all
broadcast_activity accepts payload socket_id s =
    record (send_to_all accepts payload (cache_payload payload socket_id s)) { dirty = true }
