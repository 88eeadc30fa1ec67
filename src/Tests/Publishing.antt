-- ===== src/Tests/Publishing.antt =====
-- Publishing, and who owns a slot, at a small state.
use discord_rich_presence.Prelude.{
  ℕ, ◌+◌, ◌%◌, ◌<◌, ◌≡◌, refl, some, [], ◌∷◌, ◌++◌, string_key, nat_key, pair_eq, option_eq,
  if◌then◌else◌, arith, length, unwrap_or,
}
use discord_rich_presence.Prelude.HashMap.{insert, get, retain}
use discord_rich_presence.Types.Ids.{of_pid, u64_mod}
use discord_rich_presence.Types.Fix.{fix}
use discord_rich_presence.Types.Cmd.{ActivityCmd}
use discord_rich_presence.Protocol.Flood.Guard.{WasRecorded}
use discord_rich_presence.Protocol.Cached.{activity_fingerprint}
use discord_rich_presence.Bridge.Table.{max_handoff_entries, is_process_alive}
use discord_rich_presence.Bridge.Handoff.{alive}
use discord_rich_presence.Bridge.Handoff.Owners.{IsBounded}
use discord_rich_presence.Bridge.Shared.{Shared, send_to_all, broadcast_activity}
use discord_rich_presence.Bridge.Shared.Fanout.{Takes, frames, send_to_all_delivers}
use discord_rich_presence.Bridge.Router.{cmd_pid}
use discord_rich_presence.Bridge.Router.Publish.{IsStamped, broadcast_activity_cached}
use discord_rich_presence.Bridge.Shared.{msgpack, binary}
use discord_rich_presence.Bridge.Joining.{origin_allowed, connect}
use discord_rich_presence.Bridge.Joining.Replays.{replayed, connect_replays}
use discord_rich_presence.Tests.Fixtures.{small_world, publication, card, shown, owned}

stamped : IsStamped shown
unfolding get
stamped = record {
  apart = (refl, (refl, tt));
  stamped = λ j e h. ground (arith, h);
  room = omega arith;
}

broadcast_activity_cached_example :
    get (broadcast_activity small_world.accepts (card 42) "42" shown).cache "42" ≡ some (card 42, 3)
broadcast_activity_cached_example =
    broadcast_activity_cached small_world.accepts (card 42) "42" shown stamped

-- The guard and the cache know the publication already.
abbrev published : Shared
published = record owned {
  recent = record {
    window = 5000000000;
    cap = 128;
    entries = ((some "7", 42), (1 ∷ 2 ∷ [], 500)) ∷ [];
  };
  cache = ("42", (card 42, 3)) ∷ [];
}

fingerprint :
    (activity_fingerprint small_world.codec small_world.secs publication).1 ≡ some (1 ∷ 2 ∷ [])
unfolding activity_fingerprint fix
fingerprint = refl

abbrev sent : ActivityCmd
sent = (activity_fingerprint small_world.codec small_world.secs publication).0

recorded_before :
    WasRecorded published.recent
      (sent.application_id, unwrap_or (cmd_pid sent) 0)
      (1 ∷ 2 ∷ [])
      small_world.instant
unfolding get activity_fingerprint fix pair_eq option_eq
recorded_before = record { at = 500; found = refl; recent = omega arith }

in_cache : get published.cache (of_pid (unwrap_or (cmd_pid sent) 0)) ≡ some (card 42, 3)
unfolding get of_pid activity_fingerprint fix
in_cache = refl

send_to_all_delivers_example :
    ((send_to_all small_world.accepts (card 42) shown).sent
      ≡ shown.sent ++ frames (card 42) (send_to_all small_world.accepts (card 42) shown).consumers)
    × (dead : ℕ) × (length (send_to_all small_world.accepts (card 42) shown).consumers + dead
        ≡ length shown.consumers)
    × ((send_to_all small_world.accepts (card 42) shown).dropped_broadcasts % u64_mod
        ≡ (shown.dropped_broadcasts + dead) % u64_mod)
    × Takes small_world.accepts
        (card 42)
        (length shown.sent)
        shown.consumers
        (send_to_all small_world.accepts (card 42) shown).consumers
send_to_all_delivers_example = send_to_all_delivers small_world.accepts (card 42) shown

bounded : IsBounded owned.handoff
unfolding get
bounded = record {
  owners = omega arith;
  scans = omega arith;
  owners_distinct = (refl, tt);
  scans_distinct = (refl, tt);
}

few_owners : length (retain (alive small_world.probe) owned.handoff.live_ipc) < max_handoff_entries
unfolding retain is_process_alive
few_owners = omega arith

connect_replays_example :
    connect small_world.accepts []
      (some "https://discord.com")
      3
      msgpack
      (some (binary (9 ∷ [])))
      shown
    ≡ (if origin_allowed (some "https://discord.com") []
        then record shown {
          sent = shown.sent ++ (3, binary (9 ∷ [])) ∷ replayed 3 msgpack shown.cache;
          consumers = insert shown.consumers 3 msgpack;
        }
        else shown)
connect_replays_example =
    connect_replays small_world.accepts 3 (λ n. refl) [] (some "https://discord.com") msgpack
      (binary (9 ∷ [])) shown
