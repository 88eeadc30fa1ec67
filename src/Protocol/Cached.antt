-- ===== src/Protocol/Cached.antt =====
-- crates/rsrpc-protocol/src/commands.rs: the payloads that are published and replayed. The
-- serializers (serde_json, rmp_serde) are a parameter.
use discord_rich_presence.Prelude.{
  Bytes, ℕ, String, Bool, true, false, Option, none, some, [], ◌>>=◌, unwrap_or, map_some,
}
use discord_rich_presence.Prelude.HashMap.{HashMap}
use discord_rich_presence.Types.Ids.{AppId, SocketId, of_pid}
use discord_rich_presence.Types.Cmd.{Activity, ActivityCmd, ActivityCmdArgs, ActivityPayload}
use discord_rich_presence.Types.Fix.{fix}

pub record ProcessTimestamps : Type 0 where
  pub start : ℕ

pub record ProcessActivity : Type 0 where
  pub application_id : AppId
  pub name : String
  pub timestamps : ProcessTimestamps
  pub type : ℕ
  pub metadata : HashMap String String
  pub flags : ℕ

pub record ProcessPayload : Type 0 where
  pub activity : ProcessActivity
  pub pid : ℕ
  pub socket_id : SocketId

-- Serialization as JSON and as MessagePack, which may fail.
pub record Codec : Type 0 where
  pub activity_json : Activity → Option Bytes
  pub payload_json : ActivityPayload → Option Bytes
  pub payload_msgpack : ActivityPayload → Option Bytes
  pub process_activity_json : ProcessActivity → Option Bytes
  pub process_json : ProcessPayload → Option Bytes
  pub process_msgpack : ProcessPayload → Option Bytes

pub record ActivityProvenance : Type 0 where
  pub source : String
  pub latency_ms : Option ℕ

pub record CachedActivity : Type 0 where
  pub json : Bytes
  pub msgpack : Bytes
  pub is_clear : Bool
  pub activity_json : Bytes
  pub provenance : Option ActivityProvenance
  pub pid : ℕ

module _ (codec : Codec) where
  abbrev pub clear_payload : ℕ → SocketId → ActivityPayload
  clear_payload pid socket_id = record {
    activity = none;
    pid = some pid;
    socket_id = some socket_id;
  }

  unfoldable pub empty_cached : ℕ → SocketId → Option CachedActivity
  empty_cached pid socket_id = do
    json ← codec.payload_json (clear_payload pid socket_id)
    msgpack ← codec.payload_msgpack (clear_payload pid socket_id)
    some (record {
      json = json;
      msgpack = msgpack;
      is_clear = true;
      activity_json = [];
      provenance = none;
      pid = pid;
    })

  -- The activity takes the command's application id.
  abbrev pub claim : Option AppId → ActivityCmdArgs → ActivityCmdArgs
  claim id args = record args {
    activity = map_some (λ (a : Activity). record a { application_id = id }) args.activity;
  }

  -- The command is fixed in place; its fingerprint is the JSON text of its activity.
  unfoldable pub activity_fingerprint : ℕ → ActivityCmd → ActivityCmd × Option Bytes
  activity_fingerprint now cmd =
      let fixed = fix now cmd in
      let args' = map_some (claim fixed.application_id) fixed.args in
      (
        record fixed { args = args' },
        (do args ← args'; activity ← args.activity; codec.activity_json activity),
      )

  publish_payload : Option AppId → Option ℕ → Activity → Option Bytes → Option CachedActivity
  publish_payload id pid activity fingerprint =
      let payload : ActivityPayload = record {
        activity = some (record activity { application_id = id });
        pid = pid;
        socket_id = some (of_pid (unwrap_or pid 0));
      } in
      do
        json ← codec.payload_json payload
        msgpack ← codec.payload_msgpack payload
        some (record {
          json = json;
          msgpack = msgpack;
          is_clear = false;
          activity_json = unwrap_or fingerprint [];
          provenance = none;
          pid = unwrap_or pid 0;
        })

  unfoldable pub cached_activity : ℕ → ActivityCmd → Option Bytes → Option CachedActivity
  unfolding empty_cached publish_payload
  cached_activity now cmd fingerprint =
      let fixed = fix now cmd in
      do
        args ← fixed.args
        elim args.activity [
          | none ↦ empty_cached (unwrap_or args.pid 0) (of_pid (unwrap_or args.pid 0))
          | some activity ↦ publish_payload fixed.application_id args.pid activity fingerprint
        ]
