-- ===== src/Types/Json.antt =====
-- The part of `serde_json::Value` that the program looks into. A number keeps its text: nothing
-- modelled here computes with one.
use text.Mathlib.Text.{◌==◌ as str_eq}
use discord_rich_presence.Prelude.{String, Bool, Option, none, some, if◌then◌else◌}

mutual
  pub data Value : Type 0 where
    null : Value
    bool : Bool → Value
    number : String → Value
    string : String → Value
    array : Values → Value
    object : Fields → Value

  pub data Values : Type 0 where
    nil : Values
    cons : Value → Values → Values

  pub data Fields : Type 0 where
    end : Fields
    field : String → Value → Fields → Fields

-- `Map::get`, and what `Map::remove` returns.
unfoldable pub lookup_field : String → Fields → Option Value
lookup_field k end = none
lookup_field k (field j v rest) = if str_eq j k then some v else lookup_field k rest

-- `Value::as_str`
unfoldable pub as_str : Value → Option String
as_str (string s) = some s
as_str _ = none
