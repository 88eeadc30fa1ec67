-- ===== src/Ws/Pump/Others.antt =====
-- The commands other than `SET_ACTIVITY` leave the clients and the queue alone.
use discord_rich_presence.Prelude.{
  ◌≡◌, refl, Bool, true, not, [], ◌∷◌, ◌==◌, string_key, contains, if◌then◌else◌, both_branches,
}
use discord_rich_presence.Types.Cmd.{ActivityCmd}
use discord_rich_presence.Protocol.Replies.{rpc_error}
use discord_rich_presence.Ws.Sink.{emit}
use discord_rich_presence.Ws.Handlers.{
  ClientId, GameMessage, shared, browser, Transport, GameAnswers, reply, reply_encoded,
  get_user_response, borrow, has_code, code_error, handle_browser_command, handle_deep_link,
  handle_connections_callback, handle_subscribe, handle_unknown,
}
use discord_rich_presence.Ws.Pump.{Features, on_other}
use discord_rich_presence.Ws.Pump.Bounds.{emit_pending}

-- What leaves the clients and the queue alone.
abbrev pub Untouched : Transport → Bool × Transport → Type 0
Untouched s r =
    (r.1.clients ≡ s.clients) × (r.1.total ≡ s.total) × (r.1.outlet.pending ≡ s.outlet.pending)

module _ (w : GameAnswers) (features : Features) (id : ClientId) (event : ActivityCmd)
    (s : Transport) where
  abbrev Same : Bool × Transport → Type 0
  Same = Untouched s

  abbrev silent : Bool × Transport
  silent = (true, s)

  unfolded_silent : Same silent
  unfolded_silent = (refl, refl, refl)

  reply_encoded_Untouched : (m : GameMessage) → Same (reply_encoded w id m s)
  unfolding reply_encoded reply
  reply_encoded_Untouched m =
      both_branches Same w.encodes (reply w id m s) silent (refl, refl, refl) unfolded_silent

  browser_Untouched : Same (handle_browser_command w id event s)
  unfolding handle_browser_command reply_encoded reply
  browser_Untouched =
      let t : Transport = record s { outlet = (emit w.ask event s.outlet).1 } in
      let p = emit_pending w event s.outlet in
      let e = code_error event.cmd in
      let m = browser (borrow event) in
      both_branches Same (not (has_code event))
        (reply w id (shared (rpc_error event.cmd event.nonce e.0 e.1)) s) (reply_encoded w id m t)
        (refl, refl, refl)
        (both_branches Same w.encodes (reply w id m t) (true, t) (refl, refl, p) (refl, refl, p))

  if_enabled :
      (r : Bool × Transport) → Same r → Same (if features.secondary_events then r else silent)
  if_enabled r h = both_branches Same features.secondary_events r silent h unfolded_silent

  pub on_other_Untouched : Same (on_other w features id event s)
  unfolding on_other handle_deep_link handle_connections_callback handle_subscribe handle_unknown
      reply
  on_other_Untouched =
      let name = event.cmd in
      let enabled = λ (r : Bool × Transport). if features.secondary_events then r else silent in
      let unknown = handle_unknown w id event s in
      let user = reply w id (shared (get_user_response w.user event)) s in
      let fifth = if name == "GET_USER" then user else unknown in
      let subscribe = handle_subscribe w id event s in
      let fourth = if contains ("SUBSCRIBE" ∷ "UNSUBSCRIBE" ∷ []) name then subscribe else fifth in
      let callback = handle_connections_callback w id event s in
      let third = if name == "CONNECTIONS_CALLBACK" then enabled callback else fourth in
      let link = handle_deep_link w id event s in
      let second = if name == "DEEP_LINK" then enabled link else third in
      let browse = handle_browser_command w id event s in
      let names = "INVITE_BROWSER" ∷ "GUILD_TEMPLATE_BROWSER" ∷ "GIFT_CODE_BROWSER" ∷ [] in
      let first = if contains names name then enabled browse else second in
      both_branches Same (name == "SET_ACTIVITY") silent first unfolded_silent (
        both_branches Same (contains names name) (enabled browse) second
          (if_enabled browse browser_Untouched)
          (both_branches Same (name == "DEEP_LINK") (enabled link) third
            (if_enabled link (reply_encoded_Untouched _))
            (both_branches Same (name == "CONNECTIONS_CALLBACK") (enabled callback) fourth
              (if_enabled callback (reply_encoded_Untouched _))
              (both_branches Same (contains ("SUBSCRIBE" ∷ "UNSUBSCRIBE" ∷ []) name) subscribe fifth
                (refl, refl, refl)
                (both_branches Same (name == "GET_USER") user unknown (refl, refl, refl)
                  (refl, refl, refl))))))
