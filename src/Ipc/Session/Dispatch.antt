-- ===== src/Ipc/Session/Dispatch.antt =====
-- What can come of a command, one rule for the proofs about it.
use discord_rich_presence.Prelude.{
  ◌≡◌, refl, Bool, true, false, [], ◌∷◌, ◌==◌, string_key, contains, if◌then◌else◌,
}
use discord_rich_presence.Types.Cmd.{ActivityCmd}
use discord_rich_presence.Protocol.Replies.{Reply, subscribe_ack, user_response, rpc_error}
use discord_rich_presence.Ipc.Session.{
  Conn, Answers, respond, set_activity, handle_set_activity, secondary_commands, refusal,
  wanted_user, forward_secondary, dispatch,
}

module _ (w : Answers) (s : Conn) (P : Conn → Type 0) where
  pub either :
      (b : Bool) (t u : Conn) → (b ≡ true → P t) → (b ≡ false → P u) → P (if b then t else u)
  either true t u h k = h refl
  either false t u h k = k refl

  -- A command is answered from the state, sets the activity or is forwarded as a secondary one.
  pub dispatch_cases :
      (c : ActivityCmd)
      → ((r : Reply) → r.cmd ≡ c.cmd → r.nonce ≡ c.nonce → P (respond w r s))
      → P (set_activity w c c.args s)
      → ((c.cmd == "SET_ACTIVITY") ≡ false → P (forward_secondary w c s))
      → P (dispatch w c s)
  unfolding dispatch handle_set_activity subscribe_ack user_response rpc_error
  dispatch_cases c answers sets forwards =
      let name = c.cmd in
      let refused = respond w (refusal c) s in
      let secondary = forward_secondary w c s in
      let fifth = if contains secondary_commands name then secondary else refused in
      let callback : Reply = rpc_error name c.nonce 1000 "CONNECTIONS_CALLBACK is not supported" in
      let fourth = if name == "CONNECTIONS_CALLBACK" then respond w callback s else fifth in
      let user : Reply = user_response c (wanted_user w c) in
      let third = if name == "GET_USER" then respond w user s else fourth in
      let set = set_activity w c c.args s in
      let second = if name == "SET_ACTIVITY" then set else third in
      let answered = λ (r : Reply) (h : r.cmd ≡ name) (k : r.nonce ≡ c.nonce). answers r h k in
      either (contains ("SUBSCRIBE" ∷ "UNSUBSCRIBE" ∷ []) name) (respond w (subscribe_ack c) s)
        second (λ _. answered (subscribe_ack c) refl refl)
        (λ _.
          either (name == "SET_ACTIVITY") set third (λ _. sets)
            (λ other.
              either (name == "GET_USER") (respond w user s) fourth (λ _. answered user refl refl)
                (λ _.
                  either (name == "CONNECTIONS_CALLBACK") (respond w callback s) fifth
                    (λ _. answered callback refl refl)
                    (λ _.
                      either (contains secondary_commands name) secondary refused
                        (λ _. forwards other) (λ _. answered (refusal c) refl refl)))))
