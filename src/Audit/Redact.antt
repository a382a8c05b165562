-- ===== src/Audit/Redact.antt =====
-- internal/audit/redact.go. A number of a payload passes through Go's `float64`: what becomes of it
-- is a parameter. Payloads nest less deeply than `json.Unmarshal` allows.
pub mod Clean
use garmx.Prelude.{
  Bool, true, false, Option, none, some, List, [], ◌∷◌, ◌++◌, ◌>>=◌, is_nil, any, map, keep, not,
  if◌then◌else◌,
}
use garmx.Prelude.{ℤ}
use garmx.Prelude.Bytes.{Bytes, text, equal, lower}
use garmx.Prelude.Json.{
  Value, null, bool, int, num, str, arr, obj, Items, nil, cons, Fields, end, field, Raw, absent,
  malformed, json, collect,
}

abbrev pub default_redact_keys : List Bytes
default_redact_keys =
    text "password"
    ∷ text "token"
    ∷ text "apikey"
    ∷ text "api_key"
    ∷ text "authorization"
    ∷ text "secret"
    ∷ text "env"
    ∷ text "headers"
    ∷ []

abbrev pub redacted_marker : Bytes
redacted_marker = text "[REDACTED]"

pub record Redactor : Type 0 where
  pub keys : List Bytes

unfoldable pub new_redactor : List Bytes → Redactor
new_redactor extra = record {
  keys = map lower default_redact_keys ++ map lower (keep (λ k. not (is_nil k)) extra);
}

unfoldable pub is_secret : Redactor → Bytes → Bool
is_secret r key = any (equal (lower key)) r.keys

-- A number as it is written after it was read as a `float64`.
pub data Number : Type 0 where
  whole : ℤ → Number
  other : Bytes → Number

-- `none` for a number that no `float64` holds, which `json.Unmarshal` refuses.
pub record Floats : Type 0 where
  pub of_int : ℤ → Number
  pub of_num : Bytes → Option Number

unfoldable pub number_value : Number → Value
number_value (whole z) = int z
number_value (other b) = num b

-- `walk`
unfoldable mutual
  pub walk : Redactor → Value → Value
  walk r (obj fs) = obj (walk_fields r fs)
  walk r (arr vs) = arr (walk_items r vs)
  walk r null = null
  walk r (bool b) = bool b
  walk r (int z) = int z
  walk r (num b) = num b
  walk r (str s) = str s

  pub walk_items : Redactor → Items → Items
  walk_items r nil = nil
  walk_items r (cons v vs) = cons (walk r v) (walk_items r vs)

  pub walk_fields : Redactor → Fields → Fields
  walk_fields r end = end
  walk_fields r (field k v fs) =
      let walked = walk r v in
      field k (if is_secret r k then str redacted_marker else walked) (walk_fields r fs)

module _ (F : Floats) where
  -- `json.Unmarshal` into an `any`.
  unfoldable mutual
    pub read_any : Value → Option Value
    read_any (obj fs) = do gs ← read_fields fs; some (obj (collect end gs))
    read_any (arr vs) = do us ← read_items vs; some (arr us)
    read_any null = some null
    read_any (bool b) = some (bool b)
    read_any (int z) = some (number_value (F.of_int z))
    read_any (num b) = do n ← F.of_num b; some (number_value n)
    read_any (str s) = some (str s)

    pub read_items : Items → Option Items
    read_items nil = some nil
    read_items (cons v vs) = do u ← read_any v; us ← read_items vs; some (cons u us)

    pub read_fields : Fields → Option Fields
    read_fields end = some end
    read_fields (field k v fs) = do u ← read_any v; gs ← read_fields fs; some (field k u gs)

  abbrev pub unredactable : Raw
  unredactable = json (str (text "[unredactable non-JSON payload]"))

  -- What `walk` returns is always a document that can be written.
  unfoldable pub redact : Redactor → Raw → Raw
  redact r absent = absent
  redact r (malformed b) = unredactable
  redact r (json v) = elim (read_any v) [ none ↦ unredactable | some u ↦ json (walk r u) ]
