-- ===== src/Tests/Documents.antt =====
-- Documents, normalized.
use garmx.Prelude.{ℕ, Bool, ◌≡◌, refl, false, ◌||◌, ◌==◌, leb, ◌&&◌, [], ◌∷◌, ◌++◌}
use garmx.Prelude.Bytes.{Bytes, text, has_prefix}
use garmx.Mdlint.{
  trim_left, trim_right, lines_of, classify, canonical_lines, normalize, replace_crlf, replace_cr,
  split_lines, drop_final, kind_of, canonical_fence_open, is_heading, is_list_item, hashes,
  insert_separators, insert_from, need_blank_between, collapse, drop_runs, strip_front, strip_back,
  join_lines,
}
use garmx.Mdlint.Blanks.{IsCanonical}
use garmx.Mdlint.Content.{content}
use garmx.Mdlint.Canonical.{canonical_lines-IsCanonical}

-- `TrimSpace` for ASCII.
abbrev is_space : ℕ → Bool
is_space c = c == 32 || leb 9 c && leb c 13

abbrev space : Bytes → Bytes
space s = trim_left is_space (trim_right is_space s)

-- A heading, a list and a fence without a blank line between them.
abbrev notes : Bytes
notes =
    text "# Notes"
    ++ (10 ∷ text "- one" ++ (10 ∷ text "```" ++ (10 ∷ 10 ∷ 10 ∷ text "```" ++ (10 ∷ []))))

notes-normalize :
    normalize space notes
    ≡ text "# Notes"
      ++ (10 ∷ 10 ∷ text "- one"
          ++ (10 ∷ 10 ∷ text "```text" ++ (10 ∷ 10 ∷ 10 ∷ text "```" ++ (10 ∷ []))))
unfolding normalize canonical_lines lines_of replace_crlf replace_cr split_lines drop_final classify
    kind_of canonical_fence_open is_heading is_list_item hashes insert_separators insert_from
    need_blank_between collapse drop_runs strip_front strip_back join_lines trim_left trim_right
    has_prefix
notes-normalize = refl

canonical_lines-IsCanonical_example :
    let out = canonical_lines space notes in
    IsCanonical out
    × (collapse (insert_separators out) ≡ out)
    × (content out ≡ content (classify space false false (lines_of notes)))
unfolding trim_left trim_right
canonical_lines-IsCanonical_example = canonical_lines-IsCanonical space refl notes

-- An opening fence whose info begins with a backtick is changed by every run: three times.
abbrev ticks : Bytes
ticks = text "``` ```" ++ (10 ∷ [])

ticks-normalize :
    (normalize space ticks ≡ text "``````" ++ (10 ∷ []))
    × (normalize space (normalize space ticks) ≡ text "```text" ++ (10 ∷ []))
unfolding normalize canonical_lines lines_of replace_crlf replace_cr split_lines drop_final classify
    kind_of canonical_fence_open is_heading is_list_item hashes insert_separators insert_from
    need_blank_between collapse drop_runs strip_front strip_back join_lines trim_left trim_right
    has_prefix
ticks-normalize = (refl, refl)
