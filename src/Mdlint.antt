-- ===== src/Mdlint.antt =====
-- internal/mdlint/mdlint.go. The slices of lines and of their kinds are one list of pairs. Go's
-- `strings.TrimSpace`, which knows the white space of Unicode, is a parameter.
pub mod Blanks
pub mod Content
pub mod Canonical
use garmx.Prelude.{
  ℕ, zero, suc, ◌+◌, ◌-◌, Bool, true, false, not, ◌&&◌, ◌||◌, ◌==◌, ltb, leb, Option, none, some,
  List, [], ◌∷◌, ◌++◌, map, take, length, is_nil, if◌then◌else◌,
}
use garmx.Prelude.Bytes.{Bytes, text, has_prefix}

abbrev pub default_fence_lang : Bytes
default_fence_lang = text "text"

abbrev pub fence : Bytes
fence = text "```"

pub data LineKind : Type 0 where
  blank heading fence_open fence_close fence_body list_item list_cont other : LineKind

abbrev pub Line : Type 0
Line = Bytes × LineKind

-- `ReplaceAll(text, "\r\n", "\n")` and `ReplaceAll(text, "\r", "\n")`
unfoldable pub replace_crlf : Bytes → Bytes
replace_crlf [] = []
replace_crlf (c ∷ []) = c ∷ []
replace_crlf (c ∷ d ∷ ds) =
    let both = replace_crlf ds in
    let one = replace_crlf (d ∷ ds) in if c == 13 && d == 10 then 10 ∷ both else c ∷ one

unfoldable pub replace_cr : Bytes → Bytes
replace_cr = map (λ c. if c == 13 then 10 else c)

abbrev pub in_front : ℕ → List Bytes → List Bytes
in_front c [] = (c ∷ []) ∷ []
in_front c (l ∷ ls) = (c ∷ l) ∷ ls

-- `strings.Split(text, "\n")`
unfoldable pub split_lines : Bytes → List Bytes
split_lines [] = [] ∷ []
split_lines (c ∷ cs) = let rest = split_lines cs in if c == 10 then [] ∷ rest else in_front c rest

unfoldable pub drop_final : List Bytes → List Bytes
drop_final [] = []
drop_final (l ∷ []) = if is_nil l then [] else l ∷ []
drop_final (l ∷ m ∷ ms) = l ∷ drop_final (m ∷ ms)

unfoldable pub lines_of : Bytes → List Bytes
unfolding replace_crlf replace_cr split_lines drop_final
lines_of src = drop_final (split_lines (replace_cr (replace_crlf src)))

-- A space or a tab.
abbrev pub is_gap : ℕ → Bool
is_gap c = c == 32 || c == 9

-- `strings.TrimLeft` and `strings.TrimRight`, by a test on bytes.
unfoldable pub trim_left : (ℕ → Bool) → Bytes → Bytes
trim_left p [] = []
trim_left p (c ∷ cs) = let rest = trim_left p cs in if p c then rest else c ∷ cs

unfoldable pub trim_right : (ℕ → Bool) → Bytes → Bytes
trim_right p [] = []
trim_right p (c ∷ cs) = let rest = trim_right p cs in if is_nil rest && p c then [] else c ∷ rest

-- The `#` at the start of a line, and the rest.
unfoldable pub hashes : Bytes → ℕ × Bytes
hashes [] = (0, [])
hashes (c ∷ cs) = let (n, rest) = hashes cs in if c == b'#' then (n + 1, rest) else (0, c ∷ cs)

abbrev pub starts_with : ℕ → Bytes → Bool
starts_with c [] = false
starts_with c (x ∷ xs) = x == c

unfoldable pub is_heading : Bytes → Bool
unfolding hashes
is_heading trimmed = let (n, rest) = hashes trimmed in leb 1 n && leb n 6 && starts_with 32 rest

abbrev pub is_digit : ℕ → Bool
is_digit c = leb b'0' c && leb c b'9'

-- The end of an ordered marker and the space behind it.
abbrev pub ends_marker : Bytes → Bool
ends_marker [] = false
ends_marker (c ∷ rest) = (c == b'.' || c == b')') && starts_with 32 rest

abbrev pub is_unordered : Bytes → Bool
is_unordered [] = false
is_unordered (c ∷ rest) = (c == b'-' || c == b'*' || c == b'+') && starts_with 32 rest

abbrev pub is_ordered : Bytes → Bool
is_ordered [] = false
is_ordered (c ∷ cs) = is_digit c && ends_marker (trim_left is_digit cs)

unfoldable pub is_list_item : Bytes → Bool
unfolding trim_left
is_list_item trimmed = is_unordered trimmed || is_ordered trimmed

abbrev pub is_indented : Bytes → Bool
is_indented [] = false
is_indented (c ∷ cs) = is_gap c

-- Whether two neighbours need a blank line between them.
unfoldable pub need_blank_between : LineKind → LineKind → Bool
need_blank_between blank k = false
need_blank_between p blank = false
need_blank_between fence_body k = false
need_blank_between p fence_body = false
need_blank_between p heading = true
need_blank_between heading k = true
need_blank_between p fence_open = true
need_blank_between fence_close k = true
need_blank_between list_item list_item = false
need_blank_between list_cont list_item = false
need_blank_between p list_item = true
need_blank_between list_item list_cont = false
need_blank_between list_cont list_cont = false
need_blank_between list_item k = true
need_blank_between list_cont k = true
need_blank_between p k = false

-- `ln == "" && k == kindBlank`
abbrev pub is_empty : Line → Bool
is_empty (ln, blank) = is_nil ln
is_empty (ln, k) = false

-- `prev` is the kind of the last line, `last` what stands last in the output, if there is something.
abbrev pub not_empty : Option Bytes → Bool
not_empty none = false
not_empty (some ln) = not (is_nil ln)

unfoldable pub insert_from : LineKind → Option Bytes → List Line → List Line
unfolding need_blank_between
insert_from prev last [] = []
insert_from prev last ((ln, k) ∷ rest) =
    let more = insert_from k (some ln) rest in
    if need_blank_between prev k && not_empty last
    then ([], blank) ∷ (ln, k) ∷ more
    else (ln, k) ∷ more

unfoldable pub insert_separators : List Line → List Line
unfolding insert_from
insert_separators ls = insert_from blank none ls

-- The first loop of `collapse`; `after_empty` says that the last line kept is an empty one.
unfoldable pub drop_runs : Bool → List Line → List Line
drop_runs after_empty [] = []
drop_runs after_empty (l ∷ ls) =
    let skip = drop_runs true ls in
    let more = drop_runs (is_empty l) ls in if is_empty l && after_empty then skip else l ∷ more

unfoldable pub strip_front : List Line → List Line
strip_front [] = []
strip_front (l ∷ ls) = let rest = strip_front ls in if is_empty l then rest else l ∷ ls

unfoldable pub strip_back : List Line → List Line
strip_back [] = []
strip_back (l ∷ ls) = let rest = strip_back ls in if is_nil rest && is_empty l then [] else l ∷ rest

unfoldable pub collapse : List Line → List Line
unfolding drop_runs strip_front strip_back
collapse ls = strip_back (strip_front (drop_runs false ls))

-- `strings.Join(lines, "\n")`
unfoldable pub join_lines : List Bytes → Bytes
join_lines [] = []
join_lines (l ∷ []) = l
join_lines (l ∷ m ∷ ms) = l ++ (10 ∷ join_lines (m ∷ ms))

module _ (trim_space : Bytes → Bytes) where
  unfoldable pub canonical_fence_open : Bytes → Bytes
  unfolding trim_left
  canonical_fence_open line =
      let rest = trim_left is_gap line in
      let indent = take (length line - length rest) line in
      let info = trim_space (trim_left (λ c. c == b'`') rest) in
      indent ++ (fence ++ (if is_nil info then default_fence_lang else info))

  abbrev pub is_fence : Bytes → Bool
  is_fence ln = has_prefix (trim_space ln) fence

  -- The kind of a line outside of fences that is trimmed at its end.
  unfoldable pub kind_of : Bool → Bytes → LineKind
  unfolding is_heading is_list_item
  kind_of in_list ln =
      let trimmed = trim_space ln in
      if is_nil trimmed
      then blank
      else if is_heading trimmed
      then heading
      else if is_list_item trimmed
      then list_item
      else if in_list && is_indented ln
      then list_cont
      else other

  -- What a line of a kind makes of `inList`.
  abbrev pub list_after : Bool → LineKind → Bool
  list_after in_list blank = in_list
  list_after in_list list_item = true
  list_after in_list list_cont = in_list
  list_after in_list k = false

  unfoldable pub classify : Bool → Bool → List Bytes → List Line
  unfolding canonical_fence_open kind_of trim_right
  classify in_fence in_list [] = []
  classify true in_list (ln ∷ rest) =
      let inside = classify true in_list rest in
      let outside = classify false in_list rest in
      if is_fence ln then (ln, fence_close) ∷ outside else (ln, fence_body) ∷ inside
  classify false in_list (ln ∷ rest) =
      let trimmed = trim_right is_gap ln in
      let k = kind_of in_list trimmed in
      let inside = classify true false rest in
      let outside = classify false (list_after in_list k) rest in
      if is_fence ln then (canonical_fence_open ln, fence_open) ∷ inside else (trimmed, k) ∷ outside

  unfoldable pub canonical_lines : Bytes → List Line
  unfolding lines_of classify insert_separators collapse
  canonical_lines src = collapse (insert_separators (classify false false (lines_of src)))

  unfoldable pub normalize : Bytes → Bytes
  unfolding canonical_lines join_lines
  normalize src =
      let cleaned = map (λ l. l.0) (canonical_lines src) in
      if is_nil cleaned then [] else join_lines cleaned ++ (10 ∷ [])
