-- ===== src/Bridge/Pump/Cards.antt =====
-- What withdrawing one card changes.
use discord_rich_presence.Prelude.{
  ℕ, ◌≡◌, ◌≢◌, ◌∙◌, true, none, some, string_key, nat_key, arith, Option-cases, inl, inr,
}
use discord_rich_presence.Prelude.HashMap.{remove}
use discord_rich_presence.Types.Ids.{SocketId}
use discord_rich_presence.Protocol.Cached.{Codec, CachedActivity, empty_cached}
use discord_rich_presence.Bridge.Shared.{Shared, cache_payload}
use discord_rich_presence.Bridge.Shared.Fanout.{broadcast_activity_tables}
use discord_rich_presence.Bridge.Router.{World}
use discord_rich_presence.Bridge.Pump.{clear_card}

-- The serializers can encode every clear (a fixed shape with a number and a text).
pub record EncodesClears (codec : Codec) : Type 0 where
  pub clear : (pid : ℕ) (id : SocketId) → empty_cached codec pid id ≢ none

empty_cached-is_clear :
    (codec : Codec) (pid : ℕ) (id : SocketId) (p : CachedActivity)
    → empty_cached codec pid id ≡ some p
    → p.is_clear ≡ true
unfolding empty_cached
empty_cached-is_clear codec pid id p h = ground arith

module _ (w : World) (enc : EncodesClears w.codec) where
  -- Withdrawing a card evicts it and leaves the other tables alone.
  pub clear_card_lem :
      (pid : ℕ) (id : SocketId) (s : Shared)
      → ((clear_card w pid id s).cache ≡ remove s.cache id)
        × ((clear_card w pid id s).last_process ≡ s.last_process)
        × ((clear_card w pid id s).handoff ≡ s.handoff)
  unfolding clear_card cache_payload
  clear_card_lem pid id s = elim (Option-cases (empty_cached w.codec pid id)) [
    | inl bad ↦ absurd (enc.clear pid id bad)
    | inr (p, good) ↦
        let t = broadcast_activity_tables w.accepts p id s in
        let c : p.is_clear ≡ true = empty_cached-is_clear w.codec pid id p good in
        (rw good (t.0 ∙ ground (arith, c)), rw good t.1, rw good t.2)
  ]
