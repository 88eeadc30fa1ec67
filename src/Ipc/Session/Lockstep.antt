-- ===== src/Ipc/Session/Lockstep.antt =====
-- Clients wait for a reply to each frame: every frame is answered once.
use discord_rich_presence.Prelude.{
  Bytes, ℕ, ◌≡◌, refl, ap, Option, none, some, List, [], ◌∷◌, ◌++◌, string_key, arith, unwrap_or,
  inl, inr, Option-cases,
}
use discord_rich_presence.Types.Cmd.{ActivityCmd, ActivityCmdArgs}
use discord_rich_presence.Types.Fix.{fix}
use discord_rich_presence.Protocol.Replies.{Reply, generic_ack, rpc_error, set_activity_response}
use discord_rich_presence.Ipc.Frame.{frame, encode}
use discord_rich_presence.Ipc.Session.Dispatch.{dispatch_cases}
use discord_rich_presence.Ipc.Session.{
  Conn, Answers, respond, forward, set_activity, forward_secondary, dispatch,
}

response_given :
    (now : ℕ) (c : ActivityCmd) (args : ActivityCmdArgs)
    → c.args ≡ some args
    → (r : Reply) × ((set_activity_response (fix now c)).1 ≡ some r)
      × (r.cmd ≡ c.cmd)
      × (r.nonce ≡ c.nonce)
unfolding set_activity_response fix
response_given now c args given = elim (Option-cases (set_activity_response (fix now c)).1) [
  | inl missing ↦ absurd (ground (arith, given, missing))
  | inr (r, e) ↦ (r, e, ground (arith, given, e), ground (arith, given, e))
]

forward-written : (cmd : ActivityCmd) (pid : ℕ) (s : Conn) → (forward cmd pid s).written ≡ s.written
unfolding forward
forward-written cmd pid s = ground arith

-- One frame is written, a reply to the command `c` under its nonce.
pub record IsAnswered (w : Answers) (c : ActivityCmd) (before after : List Bytes) : Type 0 where
  pub reply : Reply
  pub written : after ≡ before ++ encode frame (w.reply_json reply) ∷ []
  pub names : reply.cmd ≡ c.cmd
  pub echoes : reply.nonce ≡ c.nonce

module _ (w : Answers) (s : Conn) (c : ActivityCmd) where
  abbrev Replied : Conn → Type 0
  Replied t = IsAnswered w c s.written t.written

  respond-IsAnswered : (r : Reply) → r.cmd ≡ c.cmd → r.nonce ≡ c.nonce → Replied (respond w r s)
  unfolding respond
  respond-IsAnswered r h k = record { reply = r; written = refl; names = h; echoes = k }

  set_activity-IsAnswered :
      (o : Option ActivityCmdArgs) → c.args ≡ o → Replied (set_activity w c o s)
  unfolding set_activity respond rpc_error
  set_activity-IsAnswered none given = record {
    reply = _;
    written = refl;
    names = refl;
    echoes = refl;
  }
  set_activity-IsAnswered (some args) given =
      let named : ActivityCmd = record c { application_id = some s.client_id } in
      let sent = (set_activity_response (fix w.now named)).0 in
      let pid = unwrap_or args.pid 0 in
      let t : Conn = record s { pid = pid; nonce = c.nonce } in
      let (r, e, n, m) = response_given w.now named args given in
      rw e (record {
        reply = r;
        written =
            ap (λ (b : List Bytes). b ++ encode frame (w.reply_json r) ∷ [])
              (forward-written sent pid t);
        names = n;
        echoes = m;
      })

  -- Every command is answered by exactly one frame: a reply that names the command and echoes its
  -- nonce.
  pub dispatch-IsAnswered : IsAnswered w c s.written (dispatch w c s).written
  unfolding forward_secondary respond generic_ack
  dispatch-IsAnswered =
      dispatch_cases w s Replied c respond-IsAnswered (set_activity-IsAnswered c.args refl) (λ _.
        record {
          reply = generic_ack (record c { application_id = some s.client_id });
          written = refl;
          names = refl;
          echoes = refl;
        })
