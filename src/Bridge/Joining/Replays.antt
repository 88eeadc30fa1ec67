-- ===== src/Bridge/Joining/Replays.antt =====
-- What a consumer that joins late is sent.
use discord_rich_presence.Prelude.{
  ℕ, ◌≡◌, ◌∙◌, ap, sym, String, true, Option, some, List, [], ◌∷◌, ◌++◌, nat_key, string_key,
  length, map, if◌then◌else◌, arith,
}
use mathlib.Core.List.{append_assoc, append-nil}
use discord_rich_presence.Prelude.HashMap.{insert}
use discord_rich_presence.Bridge.Replay.{ReplayCache}
use discord_rich_presence.Bridge.Shared.{
  BridgeProtocol, ClientId, Message, Shared, Outboxes, encoded,
}
use discord_rich_presence.Bridge.Joining.{origin_allowed, try_send, send_replay, connect}

-- The frames of the cached payloads, in the encoding of one consumer.
abbrev pub replayed : ClientId → BridgeProtocol → ReplayCache → List (ClientId × Message)
replayed id protocol = map (λ e. (id, encoded e.1.0 protocol))

module _ (accepts : Outboxes) (id : ClientId) (open_box : (n : ℕ) → accepts n id ≡ true) where
  try_send_all :
      (m : Message) (s : Shared)
      → try_send accepts id m s ≡ record s { sent = s.sent ++ (id, m) ∷ [] }
  unfolding try_send
  try_send_all m s = ground (arith, open_box (length s.sent))

  send_replay_all :
      (protocol : BridgeProtocol) (m : ReplayCache) (s : Shared)
      → send_replay accepts id protocol m s ≡ record s { sent = s.sent ++ replayed id protocol m }
  unfolding send_replay
  send_replay_all protocol [] s =
      ap (λ (l : List (ClientId × Message)). record s { sent = l }) (sym (append-nil s.sent))
  send_replay_all protocol ((k, (payload, seq)) ∷ m) s =
      let f : ClientId × Message = (id, encoded payload protocol) in
      ap (send_replay accepts id protocol m) (try_send_all (encoded payload protocol) s)
      ∙ send_replay_all protocol m (record s { sent = s.sent ++ f ∷ [] })
      ∙ ap (λ (l : List (ClientId × Message)). record s { sent = l })
          (append_assoc s.sent (f ∷ []) (replayed id protocol m))

  -- A consumer whose origin is allowed and whose outbox has room is sent the READY frame and then
  -- every payload of the replay cache, each once and in its own encoding, and is registered. One
  -- with another origin is sent nothing and changes nothing.
  pub connect_replays :
      (extra : List String) (origin : Option String) (protocol : BridgeProtocol) (ready : Message)
      (s : Shared)
      → connect accepts extra origin id protocol (some ready) s ≡ (
          if origin_allowed origin extra
          then record s {
            sent = s.sent ++ (id, ready) ∷ replayed id protocol s.cache;
            consumers = insert s.consumers id protocol;
          }
          else s)
  unfolding connect
  connect_replays extra origin protocol ready s =
      let first = try_send_all ready s in
      let t : Shared = record s { sent = s.sent ++ (id, ready) ∷ [] } in
      let whole =
        ap (send_replay accepts id protocol s.cache) first
        ∙ send_replay_all protocol s.cache t
        ∙ ap (λ (l : List (ClientId × Message)). record s { sent = l })
            (append_assoc s.sent ((id, ready) ∷ []) (replayed id protocol s.cache)) in
      λ i.
        if origin_allowed origin extra
        then record (whole i) { consumers = insert (whole i).consumers id protocol }
        else s
