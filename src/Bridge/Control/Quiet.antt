-- ===== src/Bridge/Control/Quiet.antt =====
-- A control message of crates/rsrpc-bridge/src/control.rs that comes a second time.
use discord_rich_presence.Prelude.{
  ◌≡◌, refl, inl, inr, Bool, true, false, Option, none, some, Option-cases, Bytes, ◌==◌, string_key,
  nat_key, Key, arith, option_key,
}
use discord_rich_presence.Types.Json.{Value}
use discord_rich_presence.Types.User.{RpcUser}
use discord_rich_presence.Types.User.Patched.{patch-patch}
use discord_rich_presence.Bridge.Control.{
  JsonCodec, get_field, Control, set_user, reset_user, or_other, patch_some, controlled,
  same_option, same_flag, same_user, ack_of, answer_control, control_message, handle_bridge_control,
}

patch_some_again :
    (o : Option Value) (user : RpcUser) → patch_some o (patch_some o user) ≡ patch_some o user
patch_some_again none user = refl
patch_some_again (some v) user = patch-patch v user

controlled_again :
    (startup : RpcUser) (control : Control) (body : Value) (user : RpcUser)
    → controlled startup control body (controlled startup control body user)
      ≡ controlled startup control body user
controlled_again startup set_user body user =
    patch_some_again (or_other (get_field body "patch") (get_field body "data")) user
controlled_again startup reset_user body user = refl

equal_again {ℓ} : {A : Type ℓ} ⦃key : Key A⦄ (a : A) → (a == a) ≡ true
equal_again ⦃key⦄ a = ground (arith, key.eqb_iff a a)

module _ (j : JsonCodec) (same_again : (v : Value) → j.same v v ≡ true) where
  same_option_again : (o : Option Value) → same_option j.same o o ≡ true
  same_option_again none = refl
  same_option_again (some v) = same_again v

  same_flag_again : (b : Bool) → same_flag b b ≡ true
  same_flag_again true = refl
  same_flag_again false = refl

  same_user_again : (user : RpcUser) → same_user j user user ≡ true
  unfolding same_user
  same_user_again user =
      rw
        (
          equal_again user.id,
          equal_again user.username,
          equal_again user.discriminator,
          equal_again user.global_name,
          equal_again user.avatar,
          same_option_again user.avatar_decoration_data,
          same_flag_again user.bot,
          equal_again user.flags,
          equal_again user.premium_type,
        )
        refl

  answer_quiet :
      (startup : RpcUser) (control : Control) (body : Value) (user : RpcUser) (ack : Bytes)
      (changed : Option RpcUser)
      → (answer_control j startup control body user).1 ≡ some (ack, changed)
      → answer_control j startup control body (answer_control j startup control body user).0
        ≡ ((answer_control j startup control body user).0, some (ack, none))
  unfolding answer_control
  answer_quiet startup control body user ack changed h =
      let user' : RpcUser = controlled startup control body user in
      elim (Option-cases (j.ack_text (ack_of control body user'))) [
        | inl unprinted ↦ absurd (cc (rw unprinted at h))
        | inr (printed, e) ↦
            rw (controlled_again startup control body user, e, same_user_again user')
              (cc (rw e at h))
      ]

  handled_found :
      (startup : RpcUser) (message : Bytes) (control : Control) (body : Value)
      → control_message j message ≡ some (control, body)
      → (user : RpcUser)
      → handle_bridge_control j startup message user ≡ answer_control j startup control body user
  unfolding handle_bridge_control
  handled_found startup message control body found user = rw (found, handle_bridge_control) refl

  unhandled :
      (startup : RpcUser) (message : Bytes) (user : RpcUser) (ack : Bytes)
      (changed : Option RpcUser)
      → control_message j message ≡ none
      → ¬ ((handle_bridge_control j startup message user).1 ≡ some (ack, changed))
  unfolding handle_bridge_control
  unhandled startup message user ack changed other h = cc (rw (other, handle_bridge_control) at h)

  -- A control message that was answered changes nothing when it comes again: the identity stays, the
  -- answer is the same one, and no change is announced. JSON values are taken to equal themselves.
  pub control_quiet :
      (startup : RpcUser) (message : Bytes) (user : RpcUser) (ack : Bytes)
      (changed : Option RpcUser)
      → (handle_bridge_control j startup message user).1 ≡ some (ack, changed)
      → handle_bridge_control j startup message (handle_bridge_control j startup message user).0
        ≡ ((handle_bridge_control j startup message user).0, some (ack, none))
  control_quiet startup message user ack changed h =
      elim (Option-cases (control_message j message)) [
        | inl other ↦ absurd (unhandled startup message user ack changed other h)
        | inr ((control, body), found) ↦
            let first = handled_found startup message control body found user in
            let first' : RpcUser = (answer_control j startup control body user).0 in
            rw (first, handled_found startup message control body found first')
              (answer_quiet startup control body user ack changed (rw first at h))
      ]
