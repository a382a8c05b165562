-- ===== src/Aggregator/Naming.antt =====
-- internal/aggregator/naming.go: exposed names, `<server>___<name>`.
pub mod Split
use garmx.Prelude.{
  ℕ, ◌+◌, Bool, true, false, not, ◌&&◌, ◌||◌, List, [], ◌∷◌, ◌++◌, Option, none, some, leb, ltb,
  ◌==◌, if◌then◌else◌, length, take, drop, is_nil, all, Result, ok, err,
}
use garmx.Prelude.Bytes.{Bytes, text, index}

abbrev pub delimiter : Bytes
delimiter = text "___"

abbrev pub max_server_name_len : ℕ
max_server_name_len = 32

abbrev pub length_budget : ℕ
length_budget = 60

-- The first character class of `serverNameRe`.
abbrev pub is_alphanumeric : ℕ → Bool
is_alphanumeric c = leb b'a' c && leb c b'z' || leb b'0' c && leb c b'9'

-- Its second class.
abbrev pub is_name_byte : ℕ → Bool
is_name_byte c = is_alphanumeric c || c == b'-'

-- `serverNameRe.MatchString`, for `^[a-z0-9][a-z0-9-]*$`
unfoldable pub matches_server_name : Bytes → Bool
matches_server_name [] = false
matches_server_name (c ∷ cs) = is_alphanumeric c && all is_name_byte cs

pub data NameError : Type 0 where
  invalid_server_name : Bytes → NameError

unfoldable pub validate_server_name : Bytes → Result NameError (Unit {0})
validate_server_name server =
    if is_nil server || ltb max_server_name_len (length server) || not (matches_server_name server)
    then err (invalid_server_name server)
    else ok tt

abbrev pub prefix : Bytes → Bytes → Bytes
prefix server name = server ++ (delimiter ++ name)

abbrev is_valid : Result NameError (Unit {0}) → Bool
is_valid (ok _) = true
is_valid (err _) = false

-- The body of `Split` behind the search, at the offset `i` of the delimiter.
split_at : Bytes → ℕ → Option (Bytes × Bytes)
split_at exposed i =
    if leb i 0
    then none
    else let server = take i exposed in
      let name = drop (i + 3) exposed in
      if is_nil name || not (is_valid (validate_server_name server))
      then none
      else some (server, name)

unfoldable pub split : Bytes → Option (Bytes × Bytes)
unfolding split_at
split exposed = elim (index exposed delimiter) [ none ↦ none | some i ↦ split_at exposed i ]

abbrev pub exceeds_length_budget : Bytes → Bool
exceeds_length_budget exposed = ltb length_budget (length exposed)
