-- ===== src/Bridge/Pump/Cleared.antt =====
-- What an empty scan leaves visible.
use discord_rich_presence.Prelude.{
  ℕ, ◌≡◌, ◌≢◌, ◌⊎◌, ◌∙◌, ap, refl, Bool, true, false, ◌||◌, none, some, List, [], ◌∷◌, map,
  string_key, string_iff, nat_key, ◌==◌, if◌then◌else◌, arith, Bool-cases, Option-cases, inl, inr,
}
use discord_rich_presence.Prelude.HashMap.{HashMap, get, get-remove}
use discord_rich_presence.Types.Ids.{AppId, SocketId, of_app}
use discord_rich_presence.Protocol.Cached.{CachedActivity}
use discord_rich_presence.Bridge.Handoff.{HandoffState, alive, note_scan}
use discord_rich_presence.Bridge.Replay.{ReplayCache, cache_entry_pid}
use discord_rich_presence.Bridge.Shared.{Shared}
use discord_rich_presence.Bridge.Router.{World}
use discord_rich_presence.Bridge.Pump.{
  clear_card, clear_cards, insert_sorted, outstanding, ghosts, withdraw_all, on_cleared,
}
use discord_rich_presence.Bridge.Pump.Cards.{EncodesClears, clear_card_lem}

module _ (w : World) (enc : EncodesClears w.codec) where
  abbrev listed : SocketId → List (ℕ × SocketId) → Bool
  listed j [] = false
  listed j ((pid, id) ∷ cards) = id == j || listed j cards

  clear_cards_lem :
      (cards : List (ℕ × SocketId)) (s : Shared) (j : SocketId)
      → (get (clear_cards w cards s).cache j ≡ (if listed j cards then none else get s.cache j))
        × ((clear_cards w cards s).last_process ≡ s.last_process)
        × ((clear_cards w cards s).handoff ≡ s.handoff)
  unfolding clear_cards
  clear_cards_lem [] s j = (refl, refl, refl)
  clear_cards_lem ((pid, id) ∷ cards) s j =
      let c = clear_card_lem w enc pid id s in
      let r = clear_cards_lem cards (clear_card w pid id s) j in
      (
        r.0 ∙ ground (arith, ap (λ (m : ReplayCache). get m j) c.0, get-remove s.cache id j),
        r.1 ∙ c.1,
        r.2 ∙ c.2,
      )

  -- A card of the cache whose pid is dead is among the ghosts.
  ghosts-listed :
      (m : ReplayCache) (j : SocketId) (p : CachedActivity) (seq pid : ℕ)
      → get m j ≡ some (p, seq)
      → cache_entry_pid j p ≡ some pid
      → alive w.probe pid ≡ false
      → listed j (ghosts w m) ≡ true
  unfolding get ghosts
  ghosts-listed [] j p seq pid g c d = cc
  ghosts-listed ((id, (q, n)) ∷ m) j p seq pid g c d = elim (Bool-cases (id == j)) [
    | inl here ↦
        let q_p : q ≡ p = ground (arith, here) in
        let same : cache_entry_pid id q ≡ some pid =
          ap (λ i. cache_entry_pid i q) ((string_iff id j).0 here)
          ∙ ap (cache_entry_pid j) q_p
          ∙ c in
        ground (arith, same, d, here)
    | inr there ↦ ground (arith, there, ghosts-listed m j p seq pid (ground arith) c d)
  ]

  listed_sorted :
      (j : AppId) (pid : ℕ) (app : AppId) (cards : List (ℕ × AppId))
      → listed j (map (λ (c : ℕ × AppId). (c.0, of_app c.1)) (insert_sorted (pid, app) cards))
        ≡ (app == j || listed j (map (λ (c : ℕ × AppId). (c.0, of_app c.1)) cards))
  unfolding insert_sorted
  listed_sorted j pid app [] = refl
  listed_sorted j pid app (c ∷ cards) = ground (arith, listed_sorted j pid app cards)

  outstanding-listed :
      (m : HashMap AppId ℕ) (j : AppId)
      → get m j ≢ none
      → listed j (map (λ (c : ℕ × AppId). (c.0, of_app c.1)) (outstanding m)) ≡ true
  unfolding get outstanding
  outstanding-listed [] j h = absurd (h refl)
  outstanding-listed ((app, pid) ∷ m) j h =
      ground (arith, listed_sorted j pid app (outstanding m), outstanding-listed m j)

  abbrev forgotten : Shared → Shared
  forgotten s = record s { handoff = note_scan w.probe s.handoff none; last_process = [] }

  abbrev tracked_cards : Shared → List (ℕ × SocketId)
  tracked_cards s = map (λ (c : ℕ × AppId). (c.0, of_app c.1)) (outstanding s.last_process)

  -- A card stays in the cache if it is neither a tracked card nor a ghost.
  on_cleared_cache :
      (s : Shared) (id : SocketId)
      → get (on_cleared w s).cache id ≡ (
          if listed id (ghosts w (withdraw_all w s).cache) || listed id (tracked_cards s)
          then none
          else get s.cache id)
  unfolding on_cleared withdraw_all
  on_cleared_cache s id =
      let s' = withdraw_all w s in
      ground (
        arith,
        (clear_cards_lem (ghosts w s'.cache) s' id).0,
        (clear_cards_lem (tracked_cards s) (forgotten s) id).0,
      )

  -- After the scanner has reported that no game runs, no generic card is tracked and no scan is
  -- remembered, and the owners of the slots are the same. (The serializers encode clears.)
  pub on_cleared_forgets :
      (s : Shared)
      → ((on_cleared w s).last_process ≡ [])
        × ((on_cleared w s).handoff.last_scans ≡ [])
        × ((on_cleared w s).handoff.live_ipc ≡ s.handoff.live_ipc)
  unfolding on_cleared withdraw_all note_scan
  on_cleared_forgets s =
      let s' = withdraw_all w s in
      let first = clear_cards_lem (tracked_cards s) (forgotten s) "" in
      let second = clear_cards_lem (ghosts w s'.cache) s' "" in
      let h = second.2 ∙ first.2 in
      (
        second.1 ∙ first.1,
        ap (λ (h : HandoffState). h.last_scans) h,
        ap (λ (h : HandoffState). h.live_ipc) h,
      )

  -- A generic card that was tracked when the scanner reported that no game runs is not left in the
  -- replay cache. (The serializers encode clears.)
  pub on_cleared_withdraws :
      (s : Shared) (app : AppId)
      → get s.last_process app ≢ none
      → get (on_cleared w s).cache (of_app app) ≡ none
  on_cleared_withdraws s app h =
      ground (arith, on_cleared_cache s app, outstanding-listed s.last_process app h)

  -- A card that is left in the replay cache after the scanner has reported that no game runs is one
  -- from before, as it was, and its process is alive or not known. (The serializers encode clears.)
  pub on_cleared-alive :
      (s : Shared) (id : SocketId) (p : CachedActivity) (seq : ℕ)
      → get (on_cleared w s).cache id ≡ some (p, seq)
      → (get s.cache id ≡ some (p, seq))
        × ((cache_entry_pid id p ≡ none)
            ⊎ ((pid : ℕ) × (cache_entry_pid id p ≡ some pid) × (alive w.probe pid ≡ true)))
  unfolding withdraw_all
  on_cleared-alive s id p seq g =
      let before : get s.cache id ≡ some (p, seq) = ground (arith, on_cleared_cache s id) in
      let between : get (withdraw_all w s).cache id ≡ some (p, seq) =
        ground
          (arith, on_cleared_cache s id, (clear_cards_lem (tracked_cards s) (forgotten s) id).0) in
      (
        before,
        elim (Option-cases (cache_entry_pid id p)) [
          | inl unknown ↦ inl unknown
          | inr (pid, known) ↦ elim (Bool-cases (alive w.probe pid)) [
            | inl lives ↦ inr (pid, known, lives)
            | inr dead ↦ absurd (
                ground (
                  arith,
                  on_cleared_cache s id,
                  ghosts-listed (withdraw_all w s).cache id p seq pid between known dead,
                ))
          ]
        ],
      )
