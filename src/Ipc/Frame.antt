-- ===== src/Ipc/Frame.antt =====
-- crates/rsrpc-transport-ipc/src/frame.rs: packets, as bytes.
pub mod Codec
use discord_rich_presence.Prelude.{
  Bytes, ℕ, zero, suc, ◌+◌, ◌*◌, ◌/◌, ◌%◌, ◌^◌, Bool, Option, none, some, List, [], ◌∷◌, ◌++◌,
  length, take, drop, ltb, if◌then◌else◌,
}

pub data PacketType : Type 0 where
  handshake frame close ping pong : PacketType

-- `r_type as u32`
unfoldable pub code : PacketType → ℕ
code handshake = 0
code frame = 1
code close = 2
code ping = 3
code pong = 4

unfoldable pub try_from_u32 : ℕ → Option PacketType
try_from_u32 zero = some handshake
try_from_u32 (suc zero) = some frame
try_from_u32 (suc (suc zero)) = some close
try_from_u32 (suc (suc (suc zero))) = some ping
try_from_u32 (suc (suc (suc (suc zero)))) = some pong
try_from_u32 _ = none

abbrev pub max_ipc_payload : ℕ
max_ipc_payload = 1024 * 1024

-- `u32::to_le_bytes`
unfoldable pub to_le_bytes : ℕ → Bytes
to_le_bytes n = (n % 256) ∷ (n / 256 % 256) ∷ (n / 65536 % 256) ∷ (n / 16777216 % 256) ∷ []

-- The length is cast to a u32.
unfoldable pub encode : PacketType → Bytes → Bytes
unfolding to_le_bytes code
encode r_type body = to_le_bytes (code r_type) ++ (to_le_bytes (length body % 2 ^ 32) ++ body)

-- `read_exact` of four bytes and `u32::from_le_bytes`: the number and the bytes that follow.
unfoldable pub read_u32 : Bytes → Option (ℕ × Bytes)
read_u32 (a ∷ b ∷ c ∷ d ∷ rest) = some (a + 256 * b + 65536 * c + 16777216 * d, rest)
read_u32 _ = none

-- What the loop reads of one packet. The payload may be cut short by the end of the stream.
pub data Packet : Type 0 where
  lost : Packet
  too_large : Packet
  unreadable : Packet
  unknown : Packet
  packet : PacketType → Bytes → Bytes → Packet

abbrev pub typed : Option PacketType → Bytes → Bytes → Packet
typed none body rest = unknown
typed (some t) body rest = packet t body rest

abbrev pub read_body : (Bytes → Bool) → ℕ → ℕ → Bytes → Packet
read_body is_utf8 type size rest =
    if ltb max_ipc_payload size
    then too_large
    else if is_utf8 (take size rest)
    then typed (try_from_u32 type) (take size rest) (drop size rest)
    else unreadable

-- `is_utf8` tells whether `read_to_string` accepts the payload.
unfoldable pub read_packet : (Bytes → Bool) → Bytes → Packet
unfolding read_u32 try_from_u32
read_packet is_utf8 input = elim (read_u32 input) [
  | none ↦ lost
  | some (type, after) ↦ elim (read_u32 after) [
    | none ↦ lost
    | some (size, rest) ↦ read_body is_utf8 type size rest
  ]
]
