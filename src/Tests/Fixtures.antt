-- ===== src/Tests/Fixtures.antt =====
-- A small world: pids from 10 on are alive, every outbox takes its frames, every value has bytes.
use discord_rich_presence.Prelude.{ℕ, true, false, none, some, [], ◌∷◌, leb}
use discord_rich_presence.Types.Json.{null}
use discord_rich_presence.Types.Cmd.{Activity, ActivityCmd}
use discord_rich_presence.Protocol.Flood.{new, default_window, default_cap}
use discord_rich_presence.Protocol.Cached.{Codec, CachedActivity}
use discord_rich_presence.Bridge.Handoff.{ScannedGame, steam_app_id}
use discord_rich_presence.Bridge.Shared.{Shared, json, msgpack}
use discord_rich_presence.Bridge.Router.{World}
use discord_rich_presence.Prelude.Int.{pos}

abbrev pub small_codec : Codec
small_codec = record {
  activity_json = λ a. some (1 ∷ 2 ∷ []);
  payload_json = λ p. some (3 ∷ []);
  payload_msgpack = λ p. some (4 ∷ []);
  process_activity_json = λ a. some (5 ∷ []);
  process_json = λ p. some (6 ∷ []);
  process_msgpack = λ p. some (7 ∷ []);
}

abbrev pub small_world : World
small_world = record {
  probe = record { exists = λ pid. leb 10 pid; start = λ n. 0 };
  accepts = λ n c. true;
  instant = 1000;
  secs = 1700000000;
  millis = 1700000000000;
  codec = small_codec;
  cmd_codec = record { cmd_json = λ c. some (8 ∷ []); cmd_msgpack = λ c. some (9 ∷ []) };
}

abbrev pub chess : ScannedGame
chess = record {
  id = "7";
  name = "Chess";
  pid = 70;
  start = 1600000000;
  source = steam_app_id;
  process_start_ms = some 1600000000000;
}

abbrev pub playing : Activity
playing = record {
  id = none;
  name = some "Chess";
  buttons = none;
  type = 0;
  url = none;
  created_at = none;
  session_id = none;
  platform = none;
  supported_platforms = none;
  timestamps = some (record { start = some (pos 1700000000000); end_time = none });
  application_id = none;
  details = none;
  details_url = none;
  state = none;
  state_url = none;
  sync_id = none;
  is_instance = some true;
  status_display_type = none;
  flags = none;
  emoji = none;
  party = none;
  assets = none;
  secrets = none;
  metadata = none;
  extra = [];
}

abbrev pub publication : ActivityCmd
publication = record {
  application_id = some "7";
  cmd = "SET_ACTIVITY";
  args =
      some (record { pid = some 42; activity = some playing; invite_code = none; user_id = none });
  payload = none;
  evt = none;
  nonce = null;
}

abbrev pub retraction : ActivityCmd
retraction = record publication {
  args = some (record { pid = some 42; activity = none; invite_code = none; user_id = none });
}

-- A card that the process `pid` published, with the bytes of its activity.
abbrev pub card : ℕ → CachedActivity
card pid = record {
  json = 3 ∷ [];
  msgpack = 4 ∷ [];
  is_clear = false;
  activity_json = 1 ∷ 2 ∷ [];
  provenance = none;
  pid = pid;
}

-- A generic card for chess is shown; pid 42 is not known yet.
abbrev pub shown : Shared
shown = record {
  consumers = (1, json) ∷ (2, msgpack) ∷ [];
  cache = ("7", (card 70, 1)) ∷ ("8", (card 5, 2)) ∷ [];
  activity_seq = 2;
  last_process = ("7", 70) ∷ [];
  handoff = record { live_ipc = []; last_scans = ("7", chess) ∷ [] };
  recent = new default_window default_cap;
  dirty = false;
  dropped_broadcasts = 0;
  sent = [];
}

-- Pid 42 owns the slot of chess, and the generic card is still shown.
abbrev pub owned : Shared
owned = record shown {
  handoff = record { live_ipc = ("7", 42) ∷ []; last_scans = ("7", chess) ∷ [] };
}
