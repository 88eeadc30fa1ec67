-- ===== src/Protocol/Query/Params.antt =====
-- Reading one parameter is a lookup in the map of all of them.
use discord_rich_presence.Prelude.{
  String, ◌≡◌, refl, Option, none, some, List, [], ◌∷◌, string_key, ap, sym, ◌∙◌,
}
use discord_rich_presence.Prelude.HashMap.{HashMap, get, insert, get-insert}
use discord_rich_presence.Protocol.Query.{
  split_once, split, newer, find_last, last_value, query_param,
}

-- The pairs, put into a map in order: the later value of a key replaces the earlier one.
abbrev pub add_pair : HashMap String String → Option (String × String) → HashMap String String
add_pair m none = m
add_pair m (some (k, value)) = insert m k value

abbrev pub add_pairs : HashMap String String → List String → HashMap String String
add_pairs m [] = m
add_pairs m (pair ∷ pairs) = add_pairs (add_pair m (split_once b'=' pair)) pairs

-- The parameters of a uri, split at its `?`; without one there are none.
abbrev pub params : Option (String × String) → HashMap String String
params none = []
params (some (_, query)) = add_pairs [] (split b'&' query)

get-add_pair :
    (m : HashMap String String) (o : Option (String × String)) (key : String)
    → newer key (get m key) o ≡ get (add_pair m o) key
get-add_pair m none key = refl
get-add_pair m (some (k, value)) key = sym (get-insert m k key value)

find_last-get :
    (key : String) (m : HashMap String String) (pairs : List String)
    → find_last key (get m key) pairs ≡ get (add_pairs m pairs) key
unfolding find_last
find_last-get key m [] = refl
find_last-get key m (pair ∷ pairs) =
    let o = split_once b'=' pair in
    ap (λ (f : Option String). find_last key f pairs) (get-add_pair m o key)
    ∙ find_last-get key (add_pair m o) pairs

last_value-get :
    (key : String) (o : Option (String × String)) → last_value key o ≡ get (params o) key
unfolding get
last_value-get key none = refl
last_value-get key (some (path, query)) = find_last-get key [] (split b'&' query)

-- A parameter that is read straight off the uri is what the map of all its parameters, filled in
-- order, holds under the key.
pub query_param-get :
    (uri key : String) → query_param uri key ≡ get (params (split_once b'?' uri)) key
unfolding query_param
query_param-get uri key = last_value-get key (split_once b'?' uri)
