-- ===== src/Protocol/Query.antt =====
-- crates/rsrpc-protocol/src/query.rs: a parameter is read straight off the query of a uri.
pub mod Params
use Prim.Native.Char.{code}
use discord_rich_presence.Prelude.{
  ℕ, String, Bool, ◌&&◌, Option, none, some, List, [], ◌∷◌, ◌==◌, string_key, eqn, if◌then◌else◌,
  map_some, ◌>>=◌,
}

-- `str::split_once` at a character.
unfoldable pub split_once : ℕ → String → Option (String × String)
split_once sep String.[] = none
split_once sep (String.◌∷◌ c s) =
    let later : Option (String × String) = split_once sep s in
    if eqn (code c) sep
    then some ("", s)
    else map_some (λ (p : String × String). (String.◌∷◌ c p.0, p.1)) later

-- `str::split` at a character: the piece before the first separator, and the others.
unfoldable pub split_rest : ℕ → String → String × List String
split_rest sep String.[] = ("", [])
split_rest sep (String.◌∷◌ c s) =
    let (piece, pieces) = split_rest sep s in
    if eqn (code c) sep then ("", piece ∷ pieces) else (String.◌∷◌ c piece, pieces)

unfoldable pub split : ℕ → String → List String
unfolding split_rest
split sep s = let (piece, pieces) = split_rest sep s in piece ∷ pieces

-- What is found after one more pair, split at its `=`.
abbrev pub newer : String → Option String → Option (String × String) → Option String
newer key found none = found
newer key found (some (k, value)) = if k == key then some value else found

-- The loop over the pairs, with what it has found.
unfoldable pub find_last : String → Option String → List String → Option String
unfolding split_once
find_last key found [] = found
find_last key found (pair ∷ pairs) = find_last key (newer key found (split_once b'=' pair)) pairs

abbrev pub last_value : String → Option (String × String) → Option String
last_value key none = none
last_value key (some (_, query)) = find_last key none (split b'&' query)

unfoldable pub query_param : String → String → Option String
unfolding split_once split find_last
query_param uri key = last_value key (split_once b'?' uri)
