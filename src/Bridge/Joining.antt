-- ===== src/Bridge/Joining.antt =====
-- crates/rsrpc-bridge/src/{bridge,consumer,origin}.rs: how a consumer joins and leaves. The protocol
-- that its query asks for, and the READY frame, are arguments.
pub mod Replays
use discord_rich_presence.Prelude.{
  String, Bool, true, false, ◌||◌, Option, none, some, List, [], ◌∷◌, ◌++◌, string_key, nat_key,
  contains, length, if◌then◌else◌,
}
use discord_rich_presence.Prelude.HashMap.{HashMap, insert, remove, contains_key}
use discord_rich_presence.Bridge.Replay.{ReplayCache}
use discord_rich_presence.Bridge.Shared.{
  BridgeProtocol, ClientId, Message, Shared, Outboxes, encoded,
}

abbrev pub allowed_origins : List String
allowed_origins =
    "https://discord.com" ∷ "https://canary.discord.com" ∷ "https://ptb.discord.com" ∷ []

-- No origin (a native client) passes.
unfoldable pub origin_allowed : Option String → List String → Bool
origin_allowed none extra = true
origin_allowed (some value) extra = contains allowed_origins value || contains extra value

-- A send that fails is forgotten.
unfoldable pub try_send : Outboxes → ClientId → Message → Shared → Shared
try_send accepts id message s =
    if accepts (length s.sent) id then record s { sent = s.sent ++ (id, message) ∷ [] } else s

-- `send_frame`: a frame that has no MessagePack form is not sent.
abbrev pub send_frame : Outboxes → ClientId → Option Message → Shared → Shared
send_frame accepts id none s = s
send_frame accepts id (some message) s = try_send accepts id message s

-- `send_cached` for each payload of the cache.
unfoldable pub send_replay : Outboxes → ClientId → BridgeProtocol → ReplayCache → Shared → Shared
unfolding try_send
send_replay accepts id protocol [] s = s
send_replay accepts id protocol ((_, (payload, _)) ∷ m) s =
    send_replay accepts id protocol m (try_send accepts id (encoded payload protocol) s)

-- A consumer connects: `ready` is the READY frame in the encoding that it speaks.
unfoldable pub connect :
    Outboxes
    → List String
    → Option String
    → ClientId
    → BridgeProtocol
    → Option Message
    → Shared
    → Shared
unfolding send_replay try_send
connect accepts extra origin id protocol ready s =
    if origin_allowed origin extra
    then (let s' = send_replay accepts id protocol s.cache (send_frame accepts id ready s) in
        record s' { consumers = insert s'.consumers id protocol })
    else s

unfoldable pub disconnect : ClientId → Shared → Shared
disconnect id s = record s { consumers = remove s.consumers id }
