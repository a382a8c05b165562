-- ===== src/Prelude/Json.antt =====
-- JSON documents, and what the program uses of Go's `encoding/json`. A `json.RawMessage` is absent,
-- or bytes that are no JSON, or a document; a document's white space is forgotten. `int` is a number
-- that an `int` can hold, `num` the text of any other.
use mathlib.Core.Path.{◌≡◌, refl}
use mathlib.Core.Bool.{Bool}
use mathlib.Core.Option.{Option, none, some}
use mathlib.Core.List.{[]}
use native.Mathlib.Omega.{arith}
use garmx.Prelude.Tests.{if◌then◌else◌}
use garmx.Prelude.Outcome.{◌>>=◌}
use garmx.Prelude.Int.{ℤ}
use garmx.Prelude.Bytes.{Bytes, equal, equal_iff, equal_refl, less}

mutual
  pub data Value : Type 0 where
    null : Value
    bool : Bool → Value
    int : ℤ → Value
    num : Bytes → Value
    str : Bytes → Value
    arr : Items → Value
    obj : Fields → Value

  pub data Items : Type 0 where
    nil : Items
    cons : Value → Items → Items

  pub data Fields : Type 0 where
    end : Fields
    field : Bytes → Value → Fields → Fields

pub data Raw : Type 0 where
  absent : Raw
  malformed : Bytes → Raw
  json : Value → Raw

-- A `map[string]json.RawMessage`: its keys in the order in which `json.Marshal` writes them.
unfoldable pub insert : Bytes → Value → Fields → Fields
insert k v end = field k v end
insert k v (field j w fs) =
    let rest = insert k v fs in
    if equal k j
    then field k v fs
    else if less k j
    then field k v (field j w fs)
    else field j w rest

unfoldable pub find : Bytes → Fields → Option Value
find k end = none
find k (field j w fs) = if equal k j then some w else find k fs

-- Decoding an object into a map: of two equal keys the later one counts.
unfoldable pub collect : Fields → Fields → Fields
collect m end = m
collect m (field k v fs) = collect (insert k v m) fs

-- `json.Unmarshal(raw, &m)` for a map; `null` makes it the nil map, which reads as the empty one.
unfoldable pub to_map : Raw → Option Fields
to_map (json (obj fs)) = some (collect end fs)
to_map (json null) = some end
to_map r = none

-- `json.Unmarshal(raw, &s)` for a string variable that holds `s`.
unfoldable pub assign_string : Bytes → Value → Option Bytes
assign_string s (str t) = some t
assign_string s null = some s
assign_string s v = none

-- `json.Unmarshal(m[key], &s)` for an empty string variable; a missing key is the empty input.
unfoldable pub string_at : Bytes → Fields → Option Bytes
unfolding assign_string
string_at k m = do v ← find k m; assign_string [] v

-- The map laws: no condition on the order of the keys.
pub find-insert :
    (j k : Bytes) (v : Value) (m : Fields)
    → find j (insert k v m) ≡ (if equal j k then some v else find j m)
unfolding find insert
find-insert j k v end = refl
find-insert j k v (field i w m) =
    ground (arith, equal_iff j k, equal_iff k i, equal_iff j i, find-insert j k v m)

pub find-insert_self : (k : Bytes) (v : Value) (m : Fields) → find k (insert k v m) ≡ some v
find-insert_self k v m = ground (arith, find-insert k k v m, equal_refl k)
