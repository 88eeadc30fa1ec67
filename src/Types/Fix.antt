-- ===== src/Types/Fix.antt =====
-- crates/rsrpc-types/src/cmd.rs: `fix` brings a client's activity into the form that is published.
pub mod Idempotent
use discord_rich_presence.Prelude.{
  ℕ, suc, ◌+◌, ◌-◌, ◌*◌, ◌/◌, ◌^◌, String, Bool, true, false, ◌&&◌, Option, none, some, List, [],
  ◌∷◌, ltb, leb, if◌then◌else◌, map_some, unwrap_or, is_none,
}
use discord_rich_presence.Prelude.Int.{ℤ, pos, negsuc}
use discord_rich_presence.Types.Json.{Value, Fields, string, object, lookup_field, as_str}
use discord_rich_presence.Types.Cmd.{
  Activity, ActivityCmd, ActivityCmdArgs, Metadata, Timestamps, no_metadata,
}

abbrev pub micros_threshold : ℕ
micros_threshold = 100000000000000

abbrev pub nanos_threshold : ℕ
nanos_threshold = 100000000000000000

abbrev pub i64_max : ℕ
i64_max = 9223372036854775807

-- `value.saturating_mul(1000)` on an i64
unfoldable pub saturating_mul_1000 : ℤ → ℤ
saturating_mul_1000 (pos n) = pos (if ltb i64_max (n * 1000) then i64_max else n * 1000)
saturating_mul_1000 (negsuc n) =
    negsuc (if ltb i64_max (n * 1000 + 999) then i64_max else n * 1000 + 999)

-- `millis_threshold` is a time in the future, and so not negative.
unfoldable pub normalize_timestamp : ℤ → ℕ → ℤ
unfolding saturating_mul_1000
normalize_timestamp (pos n) millis_threshold =
    if leb nanos_threshold n
    then pos (n / 1000000)
    else if leb micros_threshold n
    then pos (n / 1000)
    else if ltb millis_threshold n
    then pos n
    else saturating_mul_1000 (pos n)
normalize_timestamp (negsuc n) millis_threshold = saturating_mul_1000 (negsuc n)

-- Seconds a hundred years after the clock's time.
abbrev pub century_ahead : ℕ → ℕ
century_ahead now = now + 100 * 365 * 24 * 3600

unfoldable pub fix_times : ℕ → Timestamps → Timestamps
unfolding normalize_timestamp
fix_times now t = record {
  start = map_some (λ s. normalize_timestamp s (century_ahead now)) t.start;
  end_time = map_some (λ s. normalize_timestamp s (century_ahead now)) t.end_time;
}

abbrev pub add_label : Option Value → List Value → List Value
add_label none ls = ls
add_label (some l) ls = l ∷ ls

abbrev pub add_url : Option String → List String → List String
add_url none us = us
add_url (some u) us = u ∷ us

abbrev pub url_text : Option Value → Option String
url_text none = none
url_text (some v) = as_str v

-- One button of the loop: an object gives its label and its url, anything else is a label.
unfoldable pub add_button : Value → List Value × List String → List Value × List String
add_button (object fields) (ls, us) =
    (add_label (lookup_field "label" fields) ls, add_url (url_text (lookup_field "url" fields)) us)
add_button v (ls, us) = (v ∷ ls, us)

-- `button_labels` and `button_urls` after the loop.
unfoldable pub split_buttons : List Value → List Value × List String
unfolding add_button
split_buttons [] = ([], [])
split_buttons (b ∷ bs) = add_button b (split_buttons bs)

abbrev pub labels_of : Option (List Value) → Option (List Value)
labels_of = map_some (λ bs. (split_buttons bs).0)

abbrev pub urls_of : Option (List Value) → List String
urls_of none = []
urls_of (some bs) = (split_buttons bs).1

-- Metadata is attached only when there are urls to attach.
abbrev pub attach_urls : List String → Option Metadata → Option Metadata
attach_urls [] m = m
attach_urls (u ∷ us) m = some (record (unwrap_or m no_metadata) { button_urls = some (u ∷ us) })

abbrev pub instance_flags : Option Bool → Option ℕ → Option ℕ
instance_flags is_instance flags =
    if unwrap_or is_instance false && is_none flags then some 1 else flags

abbrev pub on_activity : (Activity → Activity) → ActivityCmd → ActivityCmd
on_activity f c = record c {
  args = map_some (λ (a : ActivityCmdArgs). record a { activity = map_some f a.activity }) c.args;
}

unfoldable pub fix_timestamps : ℕ → ActivityCmd → ActivityCmd
unfolding fix_times
fix_timestamps now =
    on_activity (λ a. record a { timestamps = map_some (fix_times now) a.timestamps })

unfoldable pub fix_buttons : ActivityCmd → ActivityCmd
unfolding split_buttons
fix_buttons = on_activity (λ a. record a {
  buttons = labels_of a.buttons;
  metadata = attach_urls (urls_of a.buttons) a.metadata;
})

unfoldable pub fix_flags : ActivityCmd → ActivityCmd
fix_flags = on_activity (λ a. record a { flags = instance_flags a.is_instance a.flags })

-- `now` is the clock's time in seconds.
unfoldable pub fix : ℕ → ActivityCmd → ActivityCmd
unfolding fix_timestamps fix_buttons fix_flags
fix now c = fix_flags (fix_buttons (fix_timestamps now c))
