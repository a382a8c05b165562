-- ===== src/Mdlint/Content.antt =====
-- The passes keep the lines that are not empty.
use mathlib.Core.Bool.{false≢true}
use garmx.Prelude.{
  ◌≡◌, refl, sym, ap, ◌∙◌, Bool, true, false, not, ◌&&◌, Option, none, some, List, [], ◌∷◌, keep,
  is_nil, if◌then◌else◌, if_both, if_cases,
}
use garmx.Prelude.Bytes.{Bytes}
use garmx.Mdlint.{
  LineKind, blank, Line, need_blank_between, is_empty, not_empty, insert_from, insert_separators,
  drop_runs, strip_front, strip_back, collapse,
}
use garmx.Mdlint.Blanks.{both}

-- All but the empty lines outside of code.
abbrev pub content : List Line → List Line
content ls = keep (λ l. not (is_empty l)) ls

content-cons :
    (l : Line) (ms ls : List Line) → content ms ≡ content ls → content (l ∷ ms) ≡ content (l ∷ ls)
content-cons l ms ls h = ap (λ r. if not (is_empty l) then l ∷ r else r) h

content-empty : (l : Line) (ls : List Line) → is_empty l ≡ true → content (l ∷ ls) ≡ content ls
content-empty l ls h = ap (λ b. if not b then l ∷ content ls else content ls) h

-- The passes over the lines keep the content.
content-insert_from :
    (k : LineKind) (last : Option Bytes) (ls : List Line)
    → content (insert_from k last ls) ≡ content ls
unfolding insert_from
content-insert_from k last [] = refl
content-insert_from k last ((ln, j) ∷ ls) =
    let more = content-insert_from j (some ln) ls in
    if_both (λ z. content z ≡ content ((ln, j) ∷ ls)) (need_blank_between k j && not_empty last)
      (content-cons (ln, j) (insert_from j (some ln) ls) ls more)
      (content-cons (ln, j) (insert_from j (some ln) ls) ls more)

content-drop_runs : (a : Bool) (ls : List Line) → content (drop_runs a ls) ≡ content ls
unfolding drop_runs
content-drop_runs a [] = refl
content-drop_runs a (l ∷ ls) =
    if_cases (λ z. content z ≡ content (l ∷ ls)) (is_empty l && a)
      (λ skip. content-drop_runs true ls ∙ sym (content-empty l ls (both (is_empty l) a skip).0))
      (λ stay. content-cons l (drop_runs (is_empty l) ls) ls (content-drop_runs (is_empty l) ls))

content-strip_front : (ls : List Line) → content (strip_front ls) ≡ content ls
unfolding strip_front
content-strip_front [] = refl
content-strip_front (l ∷ ls) =
    if_cases (λ z. content z ≡ content (l ∷ ls)) (is_empty l)
      (λ e. content-strip_front ls ∙ sym (content-empty l ls e)) (λ n. refl)

content-strip_back : (ls : List Line) → content (strip_back ls) ≡ content ls
unfolding strip_back
content-strip_back [] = refl
content-strip_back (l ∷ ls) =
    if_cases (λ z. content z ≡ content (l ∷ ls)) (is_nil (strip_back ls) && is_empty l)
      (λ h.
        let (e, f) = both (is_nil (strip_back ls)) (is_empty l) h in
        ap content (sym (nil (strip_back ls) e))
        ∙ content-strip_back ls
        ∙ sym (content-empty l ls f))
      (λ n. content-cons l (strip_back ls) ls (content-strip_back ls))
  where
    nil : (xs : List Line) → is_nil xs ≡ true → xs ≡ []
    nil [] h = refl
    nil (x ∷ xs) h = absurd (false≢true h)

pub content-collapse : (ls : List Line) → content (collapse ls) ≡ content ls
unfolding collapse
content-collapse ls =
    content-strip_back (strip_front (drop_runs false ls))
    ∙ content-strip_front (drop_runs false ls)
    ∙ content-drop_runs false ls

pub content-insert_separators : (ls : List Line) → content (insert_separators ls) ≡ content ls
unfolding insert_separators
content-insert_separators ls = content-insert_from blank none ls
