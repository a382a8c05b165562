-- ===== src/Mdlint/Canonical.antt =====
-- The canonical form: `Normalize` puts the blank lines where they belong, and keeps all other lines.
use mathlib.Core.Bool.{false≢true}
use garmx.Prelude.{
  ◌≡◌, refl, sym, ap, ◌∙◌, subst, Bool, true, false, List, [], ◌∷◌, ◌++◌, All, is_nil, take, length,
  ◌-◌, ◌==◌, if◌then◌else◌, arith, if_both, if_cases,
}
use garmx.Prelude.Bytes.{Bytes, has_prefix}
use garmx.Mdlint.{
  blank, insert_separators, collapse, fence, canonical_fence_open, is_fence, kind_of, list_after,
  classify, lines_of, canonical_lines, trim_right, is_gap, trim_left, default_fence_lang,
}
use garmx.Mdlint.Blanks.{
  IsCanonical, Solid, Solid-cons, collapse-IsCanonical, insert_separators-Separated,
  insert_separators-same, collapse-same,
}
use garmx.Mdlint.Content.{content, content-insert_separators, content-collapse}

module _ (trim_space : Bytes → Bytes) (trims_nothing : trim_space [] ≡ []) where
  fence-full : (ln : Bytes) → is_fence trim_space ln ≡ true → is_nil ln ≡ false
  unfolding has_prefix
  fence-full [] h = absurd (false≢true (ap (λ z. has_prefix z fence) (sym trims_nothing) ∙ h))
  fence-full (c ∷ cs) h = refl

  kind_of-nil : (in_list : Bool) → kind_of trim_space in_list [] ≡ blank
  unfolding kind_of
  kind_of-nil in_list = ground (arith, trims_nothing)

  kind_of-Solid : (in_list : Bool) (ln : Bytes) → Solid (ln, kind_of trim_space in_list ln)
  kind_of-Solid in_list [] = subst (λ k. Solid ([], k)) (sym (kind_of-nil in_list)) tt
  kind_of-Solid in_list (c ∷ cs) = Solid-cons (c ∷ cs) (kind_of trim_space in_list (c ∷ cs)) refl

  append-full : (xs ys : Bytes) → is_nil ys ≡ false → is_nil (xs ++ ys) ≡ false
  append-full [] ys h = h
  append-full (x ∷ xs) ys h = refl

  canonical_fence_open-full : (ln : Bytes) → is_nil (canonical_fence_open trim_space ln) ≡ false
  unfolding canonical_fence_open
  canonical_fence_open-full ln =
      let rest = trim_left is_gap ln in
      let info = trim_space (trim_left (λ c. c == b'`') rest) in
      append-full (take (length ln - length rest) ln)
        (fence ++ (if is_nil info then default_fence_lang else info)) refl

  classify-Solid :
      (in_fence in_list : Bool) (ls : List Bytes)
      → All Solid (classify trim_space in_fence in_list ls)
  unfolding classify
  classify-Solid true in_list [] = tt
  classify-Solid false in_list [] = tt
  classify-Solid true in_list (ln ∷ ls) =
      if_cases (All Solid) (is_fence trim_space ln)
        (λ h. (fence-full ln h, classify-Solid false in_list ls))
        (λ h. (tt, classify-Solid true in_list ls))
  classify-Solid false in_list (ln ∷ ls) =
      let trimmed = trim_right is_gap ln in
      if_both (All Solid) (is_fence trim_space ln)
        (canonical_fence_open-full ln, classify-Solid true false ls)
        (
          kind_of-Solid in_list trimmed,
          classify-Solid false (list_after trim_space in_list (kind_of trim_space in_list trimmed))
              ls,
        )

  -- Where trimming nothing gives nothing, the lines that `Normalize` writes are in the canonical form:
  -- no two neighbours lack a blank line that their kinds need, and outside of code no two empty lines
  -- follow each other and neither the first line nor the last one is empty (a fence that is never
  -- closed may end in empty lines of code). The passes that place blank lines change nothing of them
  -- when run once more. All other lines are those of the source as classified, each once and in order,
  -- code fences and their contents included.
  pub canonical_lines-IsCanonical :
      (src : Bytes)
      → let out = canonical_lines trim_space src in
        IsCanonical out
        × (collapse (insert_separators out) ≡ out)
        × (content out ≡ content (classify trim_space false false (lines_of src)))
  unfolding canonical_lines
  canonical_lines-IsCanonical src =
      let ls = classify trim_space false false (lines_of src) in
      let form =
        collapse-IsCanonical (insert_separators ls)
          (insert_separators-Separated ls (classify-Solid false false (lines_of src))) in
      (
        form,
        ap collapse (insert_separators-same (collapse (insert_separators ls)) form)
            ∙ collapse-same (collapse (insert_separators ls)) form,
        content-collapse (insert_separators ls) ∙ content-insert_separators ls,
      )
