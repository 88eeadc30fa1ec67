-- ===== src/Ipc/Stream.antt =====
-- crates/rsrpc-transport-ipc/src/frame.rs: `handle_stream`, the loop over a connection's packets. The
-- input is all that the peer sends until it goes away.
pub mod Ends
use discord_rich_presence.Prelude.{
  Bytes, ℕ, zero, suc, Bool, true, false, Option, none, some, List, if◌then◌else◌,
}
use discord_rich_presence.Ipc.Frame.{
  PacketType, handshake, frame, close, ping, pong, Packet, lost, too_large, unreadable, unknown,
  packet, read_packet,
}
use discord_rich_presence.Ipc.Session.{
  Conn, Answers, send_close, abandon, on_handshake, on_close, on_ping, on_frame,
}

-- Why the loop ended: the connection was lost or dropped, the peer closed it, or a handshake was
-- refused.
pub data Ending : Type 0 where
  dropped closed refused : Ending

-- The state after a packet, and the ending if the loop stops.
unfoldable pub handle_packet : Answers → PacketType → Bytes → Conn → Conn × Option Ending
handle_packet w handshake message s =
    let (s', stops) = on_handshake w message s in (s', if stops then some refused else none)
handle_packet w frame message s = (on_frame w message s, none)
handle_packet w close message s = (on_close s, some closed)
handle_packet w ping message s = (on_ping message s, none)
handle_packet w pong message s = (s, none)

-- One round of the loop: the state, and either the ending or the input that is left.
pub data Round : Type 0 where
  ends : Ending → Conn → Round
  goes_on : Bytes → Conn → Round

abbrev pub round_after : Bytes → Conn × Option Ending → Round
round_after rest (s, none) = goes_on rest s
round_after rest (s, some e) = ends e s

abbrev pub packet_round : Answers → Conn → Packet → Round
packet_round w s lost = ends dropped (abandon s)
packet_round w s too_large = ends dropped (abandon (send_close w 1003 "Payload too large" s))
packet_round w s unreadable = ends dropped (abandon s)
packet_round w s unknown = ends dropped (abandon (send_close w 1003 "Unsupported packet type" s))
packet_round w s (packet r_type message rest) = round_after rest (handle_packet w r_type message s)

unfoldable pub round : Answers → Bytes → Conn → Round
round w input s = packet_round w s (read_packet w.is_utf8 input)

-- On fuel; what the outside answers may differ from round to round.
unfoldable pub handle_stream : (ℕ → Answers) → ℕ → Bytes → Conn → Option (Ending × Conn)
handle_stream w zero input s = none
handle_stream w (suc fuel) input s = elim (round (w fuel) input s) [
  | ends e s' ↦ some (e, s')
  | goes_on rest s' ↦ handle_stream w fuel rest s'
]
