-- ===== src/Xray/Json.antt =====
-- The values that `encoding/json` marshals: what the source writes as map[string]any and []any.
use xray_vless_ws_go.Base.{Bool, List, [], ◌∷◌, Option, none, some, Bytes, bytes_eq, if◌then◌else◌}
use xray_vless_ws_go.Text.Decimal.{ℤ}

mutual
  pub data Json : Type 0 where
    text : Bytes → Json
    number : ℤ → Json
    boolean : Bool → Json
    array : Items → Json
    object : Members → Json

  pub data Items : Type 0 where
    nil : Items
    cons : Json → Items → Items

  pub data Members : Type 0 where
    end : Members
    member : Bytes → Json → Members → Members

abbrev pub items : List Json → Items
items [] = nil
items (x ∷ xs) = cons x (items xs)

abbrev pub members : List (Bytes × Json) → Members
members [] = end
members ((k, v) ∷ kvs) = member k v (members kvs)

-- `map[string]any{…}` and `[]any{…}`.
abbrev pub map_of : List (Bytes × Json) → Json
map_of kvs = object (members kvs)

abbrev pub slice_of : List Json → Json
slice_of xs = array (items xs)

abbrev pub list : Items → List Json
list nil = []
list (cons x xs) = x ∷ list xs

-- The value of a name.
unfoldable pub find : Bytes → Members → Option Json
unfolding bytes_eq
find key end = none
find key (member k v rest) = let found = find key rest in if bytes_eq k key then some v else found

-- What a reader of JSON does: it goes into an object by a name, and takes a value of its kind.
unfoldable pub get : Bytes → Json → Option Json
unfolding find
get key (object kvs) = find key kvs
get key _ = none

abbrev pub as_text : Json → Option Bytes
as_text (text s) = some s
as_text _ = none

abbrev pub as_number : Json → Option ℤ
as_number (number n) = some n
as_number _ = none

abbrev pub as_list : Json → Option (List Json)
as_list (array xs) = some (list xs)
as_list _ = none
