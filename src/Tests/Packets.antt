-- ===== src/Tests/Packets.antt =====
-- Packets and the history of pids, at concrete values.
use discord_rich_presence.Prelude.{ℕ, ◌≡◌, refl, true, List, [], ◌∷◌, ◌++◌, nat_key, arith}
use discord_rich_presence.Ipc.Frame.{frame, encode, packet, read_packet}
use discord_rich_presence.Ipc.Frame.Codec.{read_packet-encode}
use discord_rich_presence.Ipc.Pids.Tracked.{IsTracked}

read_packet-encode_example :
    read_packet (λ b. true) (encode frame (104 ∷ 105 ∷ []) ++ 9 ∷ [])
    ≡ packet frame (104 ∷ 105 ∷ []) (9 ∷ [])
read_packet-encode_example =
    read_packet-encode (λ b. true) frame (104 ∷ 105 ∷ []) (9 ∷ []) (omega arith) refl

abbrev two : List ℕ
two = 41 ∷ 42 ∷ []

IsTracked-two : IsTracked two
IsTracked-two = record { bounded = omega arith; distinct = (refl, (refl, tt)) }
