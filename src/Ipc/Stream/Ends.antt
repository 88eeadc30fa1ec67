-- ===== src/Ipc/Stream/Ends.antt =====
-- The loop ends on every input, and what is left shown when it has ended.
use discord_rich_presence.Prelude.{
  Bytes, ℕ, String, zero, suc, ◌+◌, ◌≤◌, ◌<◌, ◌≡◌, ◌≢◌, ◌∙◌, refl, ap, inl, inr, ◌⊎◌, Bool, true,
  false, Option, none, some, [], ◌∷◌, ◌++◌, length, drop, eqn_iff, nat_key, arith, if◌then◌else◌,
  Option-cases,
}
use discord_rich_presence.Types.Ids.{AppId}
use discord_rich_presence.Ipc.Frame.{
  PacketType, handshake, frame, close, ping, pong, encode, Packet, lost, too_large, unreadable,
  unknown, packet, max_ipc_payload, read_u32, read_body, read_packet,
}
use discord_rich_presence.Ipc.Frame.Codec.{read_packet-encode}
use discord_rich_presence.Ipc.Session.{Conn, Answers, fresh, send_close, on_handshake, on_ping}
use discord_rich_presence.Ipc.Session.Covered.{
  IsCovered, uncleared, uncleared-abandon, uncleared-on_close, fresh-IsCovered, on_frame-IsCovered,
  on_handshake-IsCovered,
}
use discord_rich_presence.Ipc.Stream.{
  Ending, dropped, closed, refused, Round, ends, goes_on, round_after, packet_round, handle_packet,
  round, handle_stream,
}

length-read_u32 :
    (input : Bytes) (n : ℕ) (rest : Bytes)
    → read_u32 input ≡ some (n, rest)
    → length input ≡ length rest + 4
unfolding read_u32
length-read_u32 [] n rest h = cc
length-read_u32 (a ∷ []) n rest h = cc
length-read_u32 (a ∷ b ∷ []) n rest h = cc
length-read_u32 (a ∷ b ∷ c ∷ []) n rest h = cc
length-read_u32 (a ∷ b ∷ c ∷ d ∷ r) n rest h = ground (arith, h)

length-drop-le : (n : ℕ) (xs : Bytes) → length (drop n xs) ≤ length xs
length-drop-le zero xs = omega arith
length-drop-le (suc n) [] = omega arith
length-drop-le (suc n) (x ∷ xs) = omega (arith, length-drop-le n xs)

length-read_body :
    (is_utf8 : Bytes → Bool) (type size : ℕ) (input : Bytes) (t : PacketType) (message rest : Bytes)
    → read_body is_utf8 type size input ≡ packet t message rest
    → length rest ≤ length input
length-read_body is_utf8 type size input t message rest h =
    ground (arith, h, length-drop-le size input)

length-read_packet :
    (is_utf8 : Bytes → Bool) (input : Bytes) (t : PacketType) (message rest : Bytes)
    → read_packet is_utf8 input ≡ packet t message rest
    → length rest < length input
unfolding read_packet
length-read_packet is_utf8 input t message rest h = elim (Option-cases (read_u32 input)) [
  | inl a ↦ absurd (ground (arith, h, a))
  | inr ((type, after), a) ↦ elim (Option-cases (read_u32 after)) [
    | inl b ↦ absurd (ground (arith, h, a, b))
    | inr ((size, body), b) ↦
        let same : read_body is_utf8 type size body ≡ packet t message rest =
          ground (arith, h, a, b) in
        omega (
          arith,
          length-read_u32 input type after a,
          length-read_u32 after size body b,
          length-read_body is_utf8 type size body t message rest same,
        )
  ]
]

-- What is left behind a round that goes on, and what holds after one that ends.
abbrev RoundKeeps : ℕ → Round → Type 0
RoundKeeps n (goes_on rest s) = (length rest < n) × IsCovered s
RoundKeeps n (ends dropped s) = (p : ℕ) → uncleared s.offered p ≡ false
RoundKeeps n (ends closed s) = (p : ℕ) → uncleared s.offered p ≡ false
RoundKeeps n (ends refused s) = Unit

module _ (w : Answers) (s : Conn) (v : IsCovered s) where
  handshake-RoundKeeps :
      (n : ℕ) (rest : Bytes) (r : Conn × Bool)
      → length rest < n
      → IsCovered r.0
      → RoundKeeps n (round_after rest (r.0, if r.1 then some refused else none))
  handshake-RoundKeeps n rest (t, true) h k = tt
  handshake-RoundKeeps n rest (t, false) h k = (h, k)

  packet-RoundKeeps :
      (n : ℕ) (t : PacketType) (message rest : Bytes)
      → length rest < n
      → RoundKeeps n (round_after rest (handle_packet w t message s))
  unfolding handle_packet on_ping
  packet-RoundKeeps n handshake message rest h =
      handshake-RoundKeeps n rest (on_handshake w message s) h (on_handshake-IsCovered w v message)
  packet-RoundKeeps n frame message rest h = (h, on_frame-IsCovered w v message)
  packet-RoundKeeps n close message rest h = uncleared-on_close v
  packet-RoundKeeps n ping message rest h = (h, record { tracked = v.tracked; covered = v.covered })
  packet-RoundKeeps n pong message rest h = (h, v)

  closing-IsCovered : (code : ℕ) (message : String) → IsCovered (send_close w code message s)
  unfolding send_close
  closing-IsCovered code message = record { tracked = v.tracked; covered = v.covered }

  read-RoundKeeps :
      (n : ℕ) (x : Packet)
      → ((t : PacketType) (message rest : Bytes) → x ≡ packet t message rest → length rest < n)
      → RoundKeeps n (packet_round w s x)
  read-RoundKeeps n lost h = uncleared-abandon v
  read-RoundKeeps n too_large h = uncleared-abandon (closing-IsCovered 1003 "Payload too large")
  read-RoundKeeps n unreadable h = uncleared-abandon v
  read-RoundKeeps n unknown h = uncleared-abandon (closing-IsCovered 1003 "Unsupported packet type")
  read-RoundKeeps n (packet t message rest) h =
      packet-RoundKeeps n t message rest (h t message rest refl)

  round-RoundKeeps : (input : Bytes) → RoundKeeps (length input) (round w input s)
  unfolding round
  round-RoundKeeps input =
      read-RoundKeeps (length input) (read_packet w.is_utf8 input)
        (λ t message rest h. length-read_packet w.is_utf8 input t message rest h)

handle_stream_lem :
    (w : ℕ → Answers) (fuel : ℕ) (input : Bytes) (s : Conn)
    → length input < fuel
    → IsCovered s
    → (e : Ending) × (t : Conn) × (handle_stream w fuel input s ≡ some (e, t))
      × ((e ≡ refused) ⊎ ((p : ℕ) → uncleared t.offered p ≡ false))
unfolding handle_stream
handle_stream_lem w zero input s h v = absurd (omega arith)
handle_stream_lem w (suc fuel) input s h v =
    go (handle_stream_lem w fuel) (round (w fuel) input s) (round-RoundKeeps (w fuel) s v input)
  where
    go :
        ((rest : Bytes) (s : Conn)
          → length rest < fuel
          → IsCovered s
          → (e : Ending) × (t : Conn) × (handle_stream w fuel rest s ≡ some (e, t))
            × ((e ≡ refused) ⊎ ((p : ℕ) → uncleared t.offered p ≡ false)))
        → (r : Round) → RoundKeeps (length input) r
        → (e : Ending) × (t : Conn) × ((elim r as (λ x. Option (Ending × Conn)) [
          | ends e s' ↦ some (e, s')
          | goes_on rest s' ↦ handle_stream w fuel rest s'
        ])
            ≡ some (e, t))
          × ((e ≡ refused) ⊎ ((p : ℕ) → uncleared t.offered p ≡ false))
    go later (ends dropped t) k = (dropped, t, refl, inr k)
    go later (ends closed t) k = (closed, t, refl, inr k)
    go later (ends refused t) k = (refused, t, refl, inl refl)
    go later (goes_on rest t) k = later rest t (omega (arith, h, k.0)) k.1

-- On every input the loop of a new connection ends, with more fuel than the input has bytes. Unless
-- it ends at a refused handshake, no pid is left under which an activity was forwarded and not
-- cleared later.
pub handle_stream_clears :
    (w : ℕ → Answers) (fuel : ℕ) (input : Bytes)
    → length input < fuel
    → (e : Ending) × (t : Conn) × (handle_stream w fuel input fresh ≡ some (e, t))
      × ((e ≡ refused) ⊎ ((p : ℕ) → uncleared t.offered p ≡ false))
handle_stream_clears w fuel input h = handle_stream_lem w fuel input fresh h fresh-IsCovered

round-encode :
    (w : Answers) (body rest : Bytes) (s : Conn) (version : ℕ) (id : AppId)
    → length body ≤ max_ipc_payload
    → w.is_utf8 body ≡ true
    → w.parse_handshake body ≡ some (version, id)
    → version ≢ 1
    → round w (encode handshake body ++ rest) s
      ≡ ends refused (send_close w 4004 "Invalid version" s)
unfolding round handle_packet on_handshake
round-encode w body rest s version id h text parsed other =
    ap (packet_round w s) (read_packet-encode w.is_utf8 handshake body rest h text)
    ∙ ground (arith, parsed, other, eqn_iff version 1)

-- A handshake with another version than 1, at any point of a connection, ends the loop and clears
-- nothing: every pid that is not cleared yet stays so. (The packet is text of at most 1 MiB.)
pub handle_stream_refused :
    (w : ℕ → Answers) (fuel : ℕ) (body rest : Bytes) (s : Conn) (version : ℕ) (id : AppId)
    → length body ≤ max_ipc_payload
    → (w fuel).is_utf8 body ≡ true
    → (w fuel).parse_handshake body ≡ some (version, id)
    → version ≢ 1
    → (t : Conn) × (handle_stream w (suc fuel) (encode handshake body ++ rest) s
        ≡ some (refused, t))
      × ((p : ℕ) → uncleared t.offered p ≡ uncleared s.offered p)
unfolding handle_stream send_close
handle_stream_refused w fuel body rest s version id h text parsed other = (
  send_close (w fuel) 4004 "Invalid version" s,
  ground (arith, round-encode (w fuel) body rest s version id h text parsed other),
  λ p. refl,
)
