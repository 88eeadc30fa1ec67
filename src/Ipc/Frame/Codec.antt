-- ===== src/Ipc/Frame/Codec.antt =====
-- What one end writes the other reads.
use discord_rich_presence.Prelude.{
  Bytes, ℕ, ◌+◌, ◌*◌, ◌/◌, ◌%◌, ◌^◌, ◌≤◌, ◌<◌, ◌≡◌, refl, ap, Bool, true, some, [], ◌∷◌, ◌++◌,
  length, take, drop, arith,
}
use discord_rich_presence.Ipc.Frame.{
  PacketType, handshake, frame, close, ping, pong, code, try_from_u32, max_ipc_payload, to_le_bytes,
  encode, read_u32, packet, read_packet, too_large, read_body,
}

take-append : (xs ys : Bytes) → take (length xs) (xs ++ ys) ≡ xs
take-append [] ys = refl
take-append (x ∷ xs) ys = ap (◌∷◌ x) (take-append xs ys)

drop-append : (xs ys : Bytes) → drop (length xs) (xs ++ ys) ≡ ys
drop-append [] ys = refl
drop-append (x ∷ xs) ys = drop-append xs ys

read_u32-to_le_bytes :
    (n : ℕ) (rest : Bytes) → n < 2 ^ 32 → read_u32 (to_le_bytes n ++ rest) ≡ some (n, rest)
unfolding read_u32 to_le_bytes
read_u32-to_le_bytes n rest h = ground arith

u32_digits :
    (n : ℕ)
    → n < 2 ^ 32
    → n % 256 + 256 * (n / 256 % 256) + 65536 * (n / 65536 % 256) + 16777216 * (n / 16777216 % 256)
      ≡ n
u32_digits n h = omega arith

code_read : (t : PacketType) → (try_from_u32 (code t) ≡ some t) × (code t < 2 ^ 32)
unfolding try_from_u32 code
code_read handshake = (refl, omega arith)
code_read frame = (refl, omega arith)
code_read close = (refl, omega arith)
code_read ping = (refl, omega arith)
code_read pong = (refl, omega arith)

-- The payload, once its header is read.
read_body-lem :
    (is_utf8 : Bytes → Bool) (t : PacketType) (body rest : Bytes)
    → length body ≤ max_ipc_payload
    → is_utf8 body ≡ true
    → read_body is_utf8 (code t) (length body) (body ++ rest) ≡ packet t body rest
read_body-lem is_utf8 t body rest h utf8 =
    rw (take-append body rest, drop-append body rest, utf8, (code_read t).0) (ground (arith, h))

-- A packet whose payload is text of at most 1 MiB is read back whole, with all that follows it left
-- for the next packet.
pub read_packet-encode :
    (is_utf8 : Bytes → Bool) (t : PacketType) (body rest : Bytes)
    → length body ≤ max_ipc_payload
    → is_utf8 body ≡ true
    → read_packet is_utf8 (encode t body ++ rest) ≡ packet t body rest
unfolding read_packet encode
read_packet-encode is_utf8 t body rest h utf8 =
    let size : length body % 2 ^ 32 ≡ length body = omega (arith, h) in
    rw (size, u32_digits (code t) (code_read t).1, u32_digits (length body) (omega (arith, h)))
      (read_body-lem is_utf8 t body rest h utf8)

-- A larger payload is refused before any of it is read, whatever its length (as far as the header
-- can say it) and contents.
pub read_packet_too_large :
    (is_utf8 : Bytes → Bool) (t : PacketType) (size : ℕ) (rest : Bytes)
    → max_ipc_payload < size
    → size < 2 ^ 32
    → read_packet is_utf8 (to_le_bytes (code t) ++ (to_le_bytes size ++ rest)) ≡ too_large
unfolding read_packet
read_packet_too_large is_utf8 t size rest h k = ground (
  arith,
  read_u32-to_le_bytes (code t) (to_le_bytes size ++ rest),
  (code_read t).1,
  read_u32-to_le_bytes size rest k,
)
