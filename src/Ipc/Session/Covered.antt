-- ===== src/Ipc/Session/Covered.antt =====
-- Every pid under which a connection has forwarded an activity stays tracked until it is cleared.
use discord_rich_presence.Prelude.{
  Bytes, ℕ, ◌≡◌, ◌∙◌, refl, inl, inr, Bool, true, false, ◌||◌, ◌&&◌, not, Option, none, some, List,
  [], ◌∷◌, ◌++◌, ◌==◌, nat_key, string_key, eqn_iff, string_iff, contains, if◌then◌else◌, unwrap_or,
  is_none, ◌>>=◌, arith, Bool-cases,
}
use discord_rich_presence.Types.Json.{null}
use discord_rich_presence.Types.Cmd.{ActivityCmd, ActivityCmdArgs}
use discord_rich_presence.Types.Fix.{fix}
use discord_rich_presence.Protocol.Replies.{Reply, rpc_error, set_activity_response}
use discord_rich_presence.Ipc.Pids.{admit_pid, clear_pids}
use discord_rich_presence.Ipc.Pids.Tracked.{
  IsTracked, contains-append, admit_pid_lem, track_pid-admit_pid,
}
use discord_rich_presence.Ipc.Session.Dispatch.{either, dispatch_cases}
use discord_rich_presence.Ipc.Session.{
  Offer, command, clear, Conn, Answers, fresh, offer, respond, clear_cmd, send_empty, send_empties,
  abandon, on_handshake, without_pid, on_close, forward, echo, set_activity, forward_secondary,
  dispatch, parsed, on_frame, close_cmd,
}

abbrev pub offered_pid : ActivityCmd → ℕ
offered_pid c = unwrap_or (c.args >>= λ args. args.pid) 0

abbrev pub is_clear : ActivityCmd → Bool
is_clear c = is_none (c.args >>= λ args. args.activity)

-- Whether the card of `p` may be shown after an offer. Only a `SET_ACTIVITY` counts, and as a clear
-- only one without an activity.
abbrev pub shown_after : ℕ → Offer → Bool → Bool
shown_after p (command c) b = if c.cmd == "SET_ACTIVITY" && offered_pid c == p then true else b
shown_after p (clear c) b =
    if c.cmd == "SET_ACTIVITY" && is_clear c && offered_pid c == p then false else b

abbrev pub shown_from : Bool → List Offer → ℕ → Bool
shown_from b [] p = b
shown_from b (o ∷ os) p = shown_from (shown_after p o b) os p

-- The last offer under the pid `p` was a command that set the activity, and not a clear.
abbrev pub uncleared : List Offer → ℕ → Bool
uncleared = shown_from false

shown_from-snoc :
    (b : Bool) (os : List Offer) (o : Offer) (p : ℕ)
    → shown_from b (os ++ o ∷ []) p ≡ shown_after p o (shown_from b os p)
shown_from-snoc b [] o p = refl
shown_from-snoc b (x ∷ os) o p = shown_from-snoc (shown_after p x b) os o p

pub record IsCovered (s : Conn) : Type 0 where
  pub tracked : IsTracked s.published_pids
  pub covered : (p : ℕ) → uncleared s.offered p ≡ true → contains s.published_pids p ≡ true

uncleared-clear :
    (c : ActivityCmd) (os : List Offer) (p : ℕ)
    → c.cmd ≡ "SET_ACTIVITY"
    → is_clear c ≡ true
    → uncleared (os ++ clear c ∷ []) p ≡ (uncleared os p && not (offered_pid c == p))
uncleared-clear c os p h k =
    ground (arith, shown_from-snoc false os (clear c) p, string_iff c.cmd "SET_ACTIVITY")

uncleared-send_empties :
    (pids : List ℕ) (s : Conn) (p : ℕ)
    → uncleared (send_empties pids s).offered p ≡ (uncleared s.offered p && not (contains pids p))
unfolding send_empties
uncleared-send_empties [] s p = ground arith
uncleared-send_empties (pid ∷ pids) s p = ground (
  arith,
  uncleared-send_empties pids (send_empty pid s) p,
  uncleared-clear (clear_cmd pid) s.offered p refl refl,
)

contains-clear_pids :
    (history : List ℕ) (current p : ℕ)
    → contains (clear_pids history current) p ≡ (contains history p || current == p)
unfolding clear_pids
contains-clear_pids history current p =
    ground (arith, contains-append history (current ∷ []) p, eqn_iff current p)

contains-without_pid :
    (current : ℕ) (ps : List ℕ) (p : ℕ)
    → contains (without_pid current ps) p ≡ (contains ps p && not (current == p))
unfolding without_pid
contains-without_pid current [] p = refl
contains-without_pid current (x ∷ ps) p =
    ground
      (arith, contains-without_pid current ps p, eqn_iff x current, eqn_iff current p, eqn_iff x p)

module _ {s : Conn} (v : IsCovered s) where
  -- When a connection is lost, every pid that it has forwarded is cleared.
  pub uncleared-abandon : (p : ℕ) → uncleared (abandon s).offered p ≡ false
  unfolding abandon
  uncleared-abandon p = ground (
    arith,
    v.covered p,
    uncleared-send_empties (clear_pids s.published_pids s.pid) (record s { published_pids = [] }) p,
    contains-clear_pids s.published_pids s.pid p,
  )

  -- When the peer closes the connection, every pid that it has forwarded is cleared.
  pub uncleared-on_close : (p : ℕ) → uncleared (on_close s).offered p ≡ false
  unfolding on_close
  uncleared-on_close p = ground (
    arith,
    v.covered p,
    uncleared-send_empties (without_pid s.pid s.published_pids)
        (offer (clear (close_cmd s)) (record s { published_pids = [] })) p,
    uncleared-clear (close_cmd s) s.offered p refl refl,
    contains-without_pid s.pid s.published_pids p,
  )

  forward-IsCovered :
      (cmd : ActivityCmd) (pid : ℕ) → offered_pid cmd ≡ pid → IsCovered (forward cmd pid s)
  unfolding forward
  forward-IsCovered cmd pid h = elim (Bool-cases (admit_pid s.published_pids pid).1) [
    | inl fits ↦
        let t = track_pid-admit_pid s.published_pids pid v.tracked fits in
        rw fits (record {
          tracked = t.0;
          covered = λ p u.
              ground
                (arith, h, t.1 p, v.covered p, shown_from-snoc false s.offered (command cmd) p);
        })
    | inr full ↦
        let a = admit_pid_lem s.published_pids pid v.tracked in
        rw full (record { tracked = a.0; covered = λ p u. ground (arith, a.1 p, v.covered p) })
  ]

echo-IsCovered : (w : Answers) (o : Option Reply) (s : Conn) → IsCovered s → IsCovered (echo w o s)
unfolding respond
echo-IsCovered w none s v = v
echo-IsCovered w (some r) s v = record { tracked = v.tracked; covered = v.covered }

offered_pid-fix :
    (now : ℕ) (c : ActivityCmd) → offered_pid (set_activity_response (fix now c)).0 ≡ offered_pid c
unfolding set_activity_response fix
offered_pid-fix now c = ground arith

module _ (w : Answers) {s : Conn} (v : IsCovered s) where
  respond-IsCovered : (r : Reply) → IsCovered (respond w r s)
  unfolding respond
  respond-IsCovered r = record { tracked = v.tracked; covered = v.covered }

  set_activity-IsCovered :
      (cmd : ActivityCmd) (o : Option ActivityCmdArgs)
      → cmd.args ≡ o
      → IsCovered (set_activity w cmd o s)
  unfolding set_activity
  set_activity-IsCovered cmd none given = record { tracked = v.tracked; covered = v.covered }
  set_activity-IsCovered cmd (some args) given =
      let named : ActivityCmd = record cmd { application_id = some s.client_id } in
      let answer = set_activity_response (fix w.now named) in
      let pid = unwrap_or args.pid 0 in
      let t : Conn = record s { pid = pid; nonce = cmd.nonce } in
      let same : offered_pid answer.0 ≡ pid = offered_pid-fix w.now named ∙ ground (arith, given) in
      let u : IsCovered t = record { tracked = v.tracked; covered = v.covered } in
      echo-IsCovered w answer.1 (forward answer.0 pid t) (forward-IsCovered u answer.0 pid same)

  forward_secondary-IsCovered :
      (cmd : ActivityCmd)
      → (cmd.cmd == "SET_ACTIVITY") ≡ false
      → IsCovered (forward_secondary w cmd s)
  unfolding forward_secondary
  forward_secondary-IsCovered cmd other =
      let sent : ActivityCmd = record cmd { application_id = some s.client_id } in
      record {
        tracked = v.tracked;
        covered = λ p u.
            ground (arith, other, v.covered p, shown_from-snoc false s.offered (command sent) p);
      }

  dispatch-IsCovered : (cmd : ActivityCmd) → IsCovered (dispatch w cmd s)
  dispatch-IsCovered cmd =
      dispatch_cases w s IsCovered cmd (λ r _ _. respond-IsCovered r)
        (set_activity-IsCovered cmd cmd.args refl) (forward_secondary-IsCovered cmd)

  parsed-IsCovered : (o : Option ActivityCmd) → IsCovered (parsed w s o)
  parsed-IsCovered none = respond-IsCovered (rpc_error "" null 4005 "Invalid encoding")
  parsed-IsCovered (some cmd) = dispatch-IsCovered cmd

  pub on_frame-IsCovered : (message : Bytes) → IsCovered (on_frame w message s)
  unfolding on_frame
  on_frame-IsCovered message =
      either w s IsCovered s.handshake (parsed w s (w.parse_command message)) s
        (λ _. parsed-IsCovered (w.parse_command message)) (λ _. v)

  pub on_handshake-IsCovered : (message : Bytes) → IsCovered (on_handshake w message s).0
  unfolding on_handshake
  on_handshake-IsCovered message = record {
    tracked = ground (arith, v.tracked);
    covered = λ p u. ground (arith, v.covered p);
  }

pub fresh-IsCovered : IsCovered fresh
fresh-IsCovered = record {
  tracked = record { bounded = omega arith; distinct = tt };
  covered = λ p u. cc;
}
