-- ===== src/Tests/Sessions.antt =====
-- A connection, at small parsers.
use discord_rich_presence.Prelude.{
  Bytes, ℕ, ◌≡◌, ◌⊎◌, refl, true, false, none, some, [], ◌∷◌, ◌++◌, arith,
}
use discord_rich_presence.Ipc.Frame.{handshake, encode}
use discord_rich_presence.Ipc.Session.{Conn, Answers, fresh, dispatch}
use discord_rich_presence.Ipc.Session.Covered.{uncleared}
use discord_rich_presence.Ipc.Session.Lockstep.{IsAnswered, dispatch-IsAnswered}
use discord_rich_presence.Ipc.Stream.{Ending, refused, handle_stream}
use discord_rich_presence.Ipc.Stream.Ends.{handle_stream_clears, handle_stream_refused}
use discord_rich_presence.Tests.Fixtures.{publication}

-- Every frame is the publication, and every handshake has the given version.
abbrev answers : ℕ → Answers
answers version = record {
  is_utf8 = λ b. true;
  parse_handshake = λ b. some (version, "7");
  parse_command = λ b. some publication;
  reply_json = λ r. 1 ∷ [];
  ready_payload = λ u. 2 ∷ [];
  close_json = λ code message. 3 ∷ [];
  user = record {
    id = "1";
    username = "arRPC";
    discriminator = "0000";
    global_name = none;
    avatar = none;
    avatar_decoration_data = none;
    bot = false;
    flags = 0;
    premium_type = 0;
  };
  now = 1700000000;
}

-- A handshake and a publication, and then the peer is gone.
abbrev session : Bytes
session = 0 ∷ 0 ∷ 0 ∷ 0 ∷ 0 ∷ 0 ∷ 0 ∷ 0 ∷ 1 ∷ 0 ∷ 0 ∷ 0 ∷ 0 ∷ 0 ∷ 0 ∷ 0 ∷ []

handle_stream_clears_example :
    (e : Ending) × (t : Conn) × (handle_stream (λ fuel. answers 1) 20 session fresh ≡ some (e, t))
    × ((e ≡ refused) ⊎ ((p : ℕ) → uncleared t.offered p ≡ false))
handle_stream_clears_example = handle_stream_clears (λ fuel. answers 1) 20 session (omega arith)

handle_stream_refused_example :
    (t : Conn) × (handle_stream (λ fuel. answers 2) 6 (encode handshake (9 ∷ []) ++ []) fresh
      ≡ some (refused, t))
    × ((p : ℕ) → uncleared t.offered p ≡ uncleared fresh.offered p)
handle_stream_refused_example =
    handle_stream_refused (λ fuel. answers 2) 5 (9 ∷ []) [] fresh 2 "7" (omega arith) refl refl
      (omega arith)

dispatch-IsAnswered_example :
    IsAnswered (answers 1) publication [] (dispatch (answers 1) publication fresh).written
dispatch-IsAnswered_example = dispatch-IsAnswered (answers 1) fresh publication
