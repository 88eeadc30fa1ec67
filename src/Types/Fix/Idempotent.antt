-- ===== src/Types/Fix/Idempotent.antt =====
-- `fix` runs up to three times on one command: in the transport, for the fingerprint and for the
-- payload. When a further run changes nothing.
use mathlib.Core.Path.{subst}
use discord_rich_presence.Prelude.{
  ℕ, ◌*◌, ◌≤◌, ◌<◌, ◌≡◌, ◌⊎◌, ◌↔◌, refl, ap, String, Option, none, some, List, [], ◌∷◌, All, arith,
  map_some, sym, ◌∙◌,
}
use discord_rich_presence.Prelude.Int.{ℤ, pos, negsuc}
use discord_rich_presence.Types.Json.{Value, object}
use discord_rich_presence.Types.Cmd.{Activity, ActivityCmd, ActivityCmdArgs, Timestamps}
use discord_rich_presence.Types.Fix.{
  i64_max, normalize_timestamp, century_ahead, fix_times, split_buttons, labels_of, urls_of,
  attach_urls, instance_flags, fix,
}

pos_part : ℤ → ℕ
pos_part (pos n) = n
pos_part (negsuc n) = 0

-- A timestamp is settled by one run exactly when it is zero, or passes the threshold once it is
-- read as seconds; any other positive time is scaled again by a further run. (`t` is the
-- threshold, in a year before 5138.)
pub normalize_timestamp_settles_iff :
    (n t : ℕ)
    → n ≤ i64_max
    → t < 100000000000
    → (normalize_timestamp (normalize_timestamp (pos n) t) t ≡ normalize_timestamp (pos n) t)
      ↔ ((n ≡ 0) ⊎ (t < n * 1000))
unfolding normalize_timestamp
normalize_timestamp_settles_iff n t h k = (λ e. ground arith, λ s. ground arith)

abbrev IsSettled : ℕ → Option ℤ → Type 0
IsSettled t none = Unit
IsSettled t (some (pos n)) = (n ≤ i64_max) × ((n ≡ 0) ⊎ (t < n * 1000))
IsSettled t (some (negsuc n)) = ⊥

abbrev AreSettled : ℕ → Option Timestamps → Type 0
AreSettled t none = Unit
AreSettled t (some s) = IsSettled t s.start × IsSettled t s.end_time

abbrev IsLabel : Value → Type 0
IsLabel (object fields) = ⊥
IsLabel v = Unit

abbrev HavePlainLabels : Option (List Value) → Type 0
HavePlainLabels none = Unit
HavePlainLabels (some bs) = All IsLabel (split_buttons bs).0

-- What `fix` leaves alone when it runs again: its timestamps are settled, and no button's label is
-- itself an object.
pub record IsStable (now : ℕ) (a : Activity) : Type 0 where
  pub settled : AreSettled (century_ahead now) a.timestamps
  pub plain : HavePlainLabels a.buttons

split_buttons_plain : (bs : List Value) → All IsLabel bs → split_buttons bs ≡ (bs, [])
unfolding split_buttons
split_buttons_plain [] h = refl
split_buttons_plain (Value.object fields ∷ bs) h = absurd h.0
split_buttons_plain (b ∷ bs) h = rw (split_buttons_plain bs h.1)

settle :
    (t : ℕ) (o : Option ℤ)
    → t < 100000000000
    → IsSettled t o
    → map_some (λ s. normalize_timestamp s t) (map_some (λ s. normalize_timestamp s t) o)
      ≡ map_some (λ s. normalize_timestamp s t) o
settle t none k h = refl
settle t (some (pos n)) k h = ap some ((normalize_timestamp_settles_iff n t h.0 k).1 h.1)
settle t (some (negsuc n)) k h = absurd h

settle_times :
    (now : ℕ) (o : Option Timestamps)
    → century_ahead now < 100000000000
    → AreSettled (century_ahead now) o
    → map_some (fix_times now) (map_some (fix_times now) o) ≡ map_some (fix_times now) o
unfolding fix_times
settle_times now none k h = refl
settle_times now (some s) k h =
    ground
      (arith, settle (century_ahead now) s.start k h.0, settle (century_ahead now) s.end_time k h.1)

abbrev fix_activity : ℕ → Activity → Activity
fix_activity now a = record a {
  timestamps = map_some (fix_times now) a.timestamps;
  buttons = labels_of a.buttons;
  metadata = attach_urls (urls_of a.buttons) a.metadata;
  flags = instance_flags a.is_instance a.flags;
}

labels_stable :
    (o : Option (List Value))
    → HavePlainLabels o
    → (labels_of (labels_of o) ≡ labels_of o) × (urls_of (labels_of o) ≡ [])
labels_stable none h = (refl, refl)
labels_stable (some bs) h =
    let e = split_buttons_plain (split_buttons bs).0 h in
    (
      ap (λ (p : List Value × List String). some p.0) e,
      ap (λ (p : List Value × List String). p.1) e,
    )

fix_activity_stable :
    (now : ℕ) (a : Activity)
    → century_ahead now < 100000000000
    → IsStable now a
    → fix_activity now (fix_activity now a) ≡ fix_activity now a
fix_activity_stable now a k h =
    let settled = settle_times now a.timestamps k h.settled in
    let (labels, urls) = labels_stable a.buttons h.plain in
    let fl : instance_flags a.is_instance (instance_flags a.is_instance a.flags)
        ≡ instance_flags a.is_instance a.flags =
      ground arith in
    let m = attach_urls (urls_of a.buttons) a.metadata in
    λ i. record a {
      timestamps = settled i;
      buttons = labels i;
      metadata = attach_urls (urls i) m;
      flags = fl i;
    }

abbrev pub ActivityIsStable : ℕ → Option Activity → Type 0
ActivityIsStable now none = Unit
ActivityIsStable now (some a) = IsStable now a

abbrev pub ArgsAreStable : ℕ → Option ActivityCmdArgs → Type 0
ArgsAreStable now none = Unit
ArgsAreStable now (some args) = ActivityIsStable now args.activity

abbrev pub CmdIsStable : ℕ → ActivityCmd → Type 0
CmdIsStable now c = ArgsAreStable now c.args

ActivityIsStable-some :
    (now : ℕ) (o : Option Activity) (a : Activity)
    → ActivityIsStable now o
    → o ≡ some a
    → IsStable now a
ActivityIsStable-some now none a s q = cc
ActivityIsStable-some now (some b) a s q = subst (IsStable now) (cc) s

ArgsAreStable-some :
    (now : ℕ) (o : Option ActivityCmdArgs) (args : ActivityCmdArgs) (a : Activity)
    → ArgsAreStable now o
    → o ≡ some args
    → args.activity ≡ some a
    → IsStable now a
ArgsAreStable-some now none args a s p q = cc
ArgsAreStable-some now (some b) args a s p q =
    ActivityIsStable-some now b.activity a s (ground (arith, p, q))

fix_args : ℕ → Option ActivityCmdArgs → Option ActivityCmdArgs
fix_args now =
    map_some
      (λ (a : ActivityCmdArgs). record a { activity = map_some (fix_activity now) a.activity })

fix_args_stable :
    (now : ℕ) (o : Option ActivityCmdArgs)
    → century_ahead now < 100000000000
    → ((args : ActivityCmdArgs) (a : Activity)
        → o ≡ some args
        → args.activity ≡ some a
        → IsStable now a)
    → fix_args now (fix_args now o) ≡ fix_args now o
unfolding fix_args
fix_args_stable now none k h = refl
fix_args_stable now (some args) k h =
    let twice = go args.activity (λ a e. h args a refl e) in
    λ i. some (record args { activity = twice i })
  where
    go :
        (o : Option Activity)
        → ((a : Activity) → o ≡ some a → IsStable now a)
        → map_some (fix_activity now) (map_some (fix_activity now) o)
          ≡ map_some (fix_activity now) o
    go none s = refl
    go (some a) s = ap some (fix_activity_stable now a k (s a refl))

-- The three passes are one pass.
fix-activity :
    (now : ℕ) (c : ActivityCmd) (args : ActivityCmdArgs) (o : Option Activity)
    → fix now (record c { args = some (record args { activity = o }) })
      ≡ record c { args = fix_args now (some (record args { activity = o })) }
unfolding fix fix_args
fix-activity now c args none = refl
fix-activity now c args (some a) = refl

fix-args :
    (now : ℕ) (c : ActivityCmd) (o : Option ActivityCmdArgs)
    → fix now (record c { args = o }) ≡ record c { args = fix_args now o }
unfolding fix fix_args
fix-args now c none = refl
fix-args now c (some args) = fix-activity now c args args.activity

-- Running `fix` again changes nothing, if every timestamp of the activity is settled and no label
-- of its buttons is itself an object (and the clock stands before the year 5038).
pub fix-fix :
    (now : ℕ) (c : ActivityCmd)
    → century_ahead now < 100000000000
    → CmdIsStable now c
    → fix now (fix now c) ≡ fix now c
fix-fix now c k h =
    ap (fix now) (fix-args now c c.args)
    ∙ fix-args now c (fix_args now c.args)
    ∙ (λ i. record c {
      args = fix_args_stable now c.args k (λ args a. ArgsAreStable-some now c.args args a h) i;
    })
    ∙ sym (fix-args now c c.args)
