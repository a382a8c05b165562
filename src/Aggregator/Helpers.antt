-- ===== src/Aggregator/Helpers.antt =====
-- internal/aggregator/helpers.go: list items, list results and their parameters.
pub mod Rewriting
use garmx.Prelude.{
  Bool, true, false, not, Option, none, some, List, [], ◌∷◌, ◌>>=◌, is_nil, if◌then◌else◌,
}
use garmx.Prelude.Bytes.{Bytes, text}
use garmx.Prelude.Json.{
  Value, null, str, arr, obj, Items, nil, cons, Fields, end, field, Raw, absent, malformed, json,
  insert, find, to_map, assign_string, string_at,
}
use garmx.Mcp.Message.{fits, Response, new_response}
use garmx.Aggregator.Naming.{prefix}

-- The exposed name and the rewritten item; `none` for an item with no usable name.
unfoldable pub prefix_item_name : Bytes → Value → Option (Bytes × Value)
prefix_item_name server item = do
  fields ← to_map (json item)
  name ← string_at (text "name") fields
  some (prefix server name, obj (insert (text "name") (str (prefix server name)) fields))

-- Decoding into a struct with one string field.
unfoldable pub string_struct : Bytes → Bytes → Fields → Option Bytes
string_struct tag s end = some s
string_struct tag s (field k v fs) = do
  t ← if fits k tag then assign_string s v else some s
  string_struct tag t fs

unfoldable pub decode_string_struct : Bytes → Raw → Option Bytes
unfolding string_struct
decode_string_struct tag (json (obj fs)) = string_struct tag [] fs
decode_string_struct tag (json null) = some []
decode_string_struct tag r = none

-- `""` where there is no uri, or the item is of another shape.
unfoldable pub item_uri : Value → Bytes
unfolding decode_string_struct
item_uri item = elim (decode_string_struct (text "uri") (json item)) [ none ↦ [] | some uri ↦ uri ]

abbrev pub items_list : Items → List Value
items_list nil = []
items_list (cons v vs) = v ∷ items_list vs

abbrev pub list_items : List Value → Items
list_items [] = nil
list_items (v ∷ vs) = cons v (list_items vs)

-- A missing key leaves the variable as it was; `null` too.
items_at : Option Value → Option (List Value)
items_at none = some []
items_at (some null) = some []
items_at (some (arr vs)) = some (items_list vs)
items_at (some v) = none

cursor_at : Option Value → Option Bytes
cursor_at none = some []
cursor_at (some v) = assign_string [] v

-- The items and the next cursor; `none` for a result that does not decode.
unfoldable pub decode_list : Raw → Bytes → Option (List Value × Bytes)
unfolding items_at cursor_at
decode_list result key = do
  fields ← to_map result
  items ← items_at (find key fields)
  next ← cursor_at (find (text "nextCursor") fields)
  some (items, next)

unfoldable pub list_params : Bytes → Raw
list_params cursor =
    if is_nil cursor then absent else json (obj (field (text "cursor") (str cursor) end))

-- A client cursor that does not decode counts as none.
unfoldable pub has_cursor : Raw → Bool
unfolding decode_string_struct
has_cursor absent = false
has_cursor params = elim (decode_string_struct (text "cursor") params) [
  | none ↦ false
  | some cursor ↦ not (is_nil cursor)
]

-- The items are documents, so the encoding does not fail.
unfoldable pub list_response : Raw → Bytes → List Value → Response
list_response id key items = new_response id (json (obj (field key (arr (list_items items)) end)))
