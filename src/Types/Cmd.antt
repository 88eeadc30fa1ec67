-- ===== src/Types/Cmd.antt =====
-- crates/rsrpc-types/src/cmd.rs: the activity command and its parts.
use discord_rich_presence.Prelude.{ℕ, String, Bool, Option, none, List}
use discord_rich_presence.Prelude.HashMap.{HashMap}
use discord_rich_presence.Prelude.Int.{ℤ}
use discord_rich_presence.Types.Ids.{AppId}
use discord_rich_presence.Types.Json.{Value, string}

pub record Party : Type 0 where
  pub id : Option String
  pub size : Option (List ℕ)
  pub privacy : Option ℕ

pub record Assets : Type 0 where
  pub large_image : Option String
  pub large_text : Option String
  pub small_image : Option String
  pub small_text : Option String
  pub large_url : Option String
  pub small_url : Option String

pub record Secrets : Type 0 where
  pub join : Option String
  pub spectate : Option String
  pub match_secret : Option String

pub record Emoji : Type 0 where
  pub name : Option String
  pub id : Option String
  pub animated : Option Bool

pub record Metadata : Type 0 where
  pub button_urls : Option (List String)
  pub artist_ids : Option (List String)
  pub album_id : Option String
  pub context_uri : Option String

-- `Metadata::default()`
abbrev pub no_metadata : Metadata
no_metadata = record { button_urls = none; artist_ids = none; album_id = none; context_uri = none }

-- Each bound is a `TimeoutValue`, which wraps an i64.
pub record Timestamps : Type 0 where
  pub start : Option ℤ
  pub end_time : Option ℤ

pub record Activity : Type 0 where
  pub id : Option String
  pub name : Option String
  pub buttons : Option (List Value)
  pub type : ℕ
  pub url : Option String
  pub created_at : Option ℕ
  pub session_id : Option String
  pub platform : Option String
  pub supported_platforms : Option (List String)
  pub timestamps : Option Timestamps
  pub application_id : Option AppId
  pub details : Option String
  pub details_url : Option String
  pub state : Option String
  pub state_url : Option String
  pub sync_id : Option String
  pub is_instance : Option Bool
  pub status_display_type : Option ℕ
  pub flags : Option ℕ
  pub emoji : Option Emoji
  pub party : Option Party
  pub assets : Option Assets
  pub secrets : Option Secrets
  pub metadata : Option Metadata
  pub extra : HashMap String Value

pub record ActivityCmdArgs : Type 0 where
  pub pid : Option ℕ
  pub activity : Option Activity
  pub invite_code : Option String
  pub user_id : Option String

pub record ActivityCmd : Type 0 where
  pub application_id : Option AppId
  pub cmd : String
  pub args : Option ActivityCmdArgs
  pub payload : Option (HashMap String Value)
  pub evt : Option String
  pub nonce : Value

pub record ActivityPayload : Type 0 where
  pub activity : Option Activity
  pub pid : Option ℕ
  pub socket_id : Option String

-- `ActivityCmd::empty()`
abbrev pub empty_cmd : ActivityCmd
empty_cmd = record {
  application_id = none;
  cmd = "";
  args = none;
  payload = none;
  evt = none;
  nonce = string "";
}
