-- ===== src/Mdlint/Blanks.antt =====
-- Where the passes put blank lines, and where they leave none.
use mathlib.Core.Bool.{false≢true}
use garmx.Prelude.{
  ◌≡◌, refl, sym, ap, ◌∙◌, subst, Bool, true, false, ◌&&◌, Option, none, some, List, [], ◌∷◌, All,
  is_nil, if◌then◌else◌, arith, inl, inr, Bool-cases, if_both, if_cases,
}
use garmx.Prelude.Bytes.{Bytes}
use garmx.Mdlint.{
  LineKind, blank, heading, fence_open, fence_close, fence_body, list_item, list_cont, other, Line,
  need_blank_between, is_empty, not_empty, insert_from, insert_separators, drop_runs, strip_front,
  strip_back, collapse,
}

-- No two neighbours need a blank line between them; `k` is the kind of the line before.
abbrev pub Separated : LineKind → List Line → Type 0
Separated k [] = Unit
Separated k (l ∷ ls) = (need_blank_between k l.1 ≡ false) × Separated l.1 ls

-- No empty line follows an empty one; `after_empty` says that the line before is empty.
abbrev pub NoRuns : Bool → List Line → Type 0
NoRuns after_empty [] = Unit
NoRuns after_empty (l ∷ ls) = ((is_empty l && after_empty) ≡ false) × NoRuns (is_empty l) ls

-- The last line is not empty.
abbrev pub EndsFull : List Line → Type 0
EndsFull [] = Unit
EndsFull (l ∷ []) = is_empty l ≡ false
EndsFull (l ∷ m ∷ ms) = EndsFull (m ∷ ms)

-- With `NoRuns true`, the first line is not empty.
pub record IsCanonical (ls : List Line) : Type 0 where
  pub separated : Separated blank ls
  pub no_runs : NoRuns true ls
  pub ends_full : EndsFull ls

-- Lines of most kinds have something in them.
abbrev pub Solid : Line → Type 0
Solid (ln, blank) = Unit
Solid (ln, fence_body) = Unit
Solid (ln, k) = is_nil ln ≡ false

pub Solid-cons : (ln : Bytes) (k : LineKind) → is_nil ln ≡ false → Solid (ln, k)
Solid-cons ln blank h = tt
Solid-cons ln fence_body h = tt
Solid-cons ln heading h = h
Solid-cons ln fence_open h = h
Solid-cons ln fence_close h = h
Solid-cons ln list_item h = h
Solid-cons ln list_cont h = h
Solid-cons ln other h = h

need-blank : (k : LineKind) → need_blank_between k blank ≡ false
unfolding need_blank_between
need-blank blank = refl
need-blank fence_body = refl
need-blank heading = refl
need-blank fence_open = refl
need-blank fence_close = refl
need-blank list_item = refl
need-blank list_cont = refl
need-blank other = refl

need_after_blank : (k : LineKind) → need_blank_between blank k ≡ false
unfolding need_blank_between
need_after_blank k = refl

need_after_body : (k : LineKind) → need_blank_between fence_body k ≡ false
unfolding need_blank_between
need_after_body blank = refl
need_after_body fence_body = refl
need_after_body heading = refl
need_after_body fence_open = refl
need_after_body fence_close = refl
need_after_body list_item = refl
need_after_body list_cont = refl
need_after_body other = refl

-- A line that needs one behind it is not empty.
need-Solid :
    (ln : Bytes) (k j : LineKind)
    → Solid (ln, k)
    → need_blank_between k j ≡ true
    → is_nil ln ≡ false
unfolding need_blank_between
need-Solid ln blank j s h = ground (arith, h)
need-Solid ln fence_body j s h = absurd (false≢true (sym (need_after_body j) ∙ h))
need-Solid ln heading j s h = s
need-Solid ln fence_open j s h = s
need-Solid ln fence_close j s h = s
need-Solid ln list_item j s h = s
need-Solid ln list_cont j s h = s
need-Solid ln other j s h = s

empty-blank : (l : Line) → is_empty l ≡ true → l.1 ≡ blank
empty-blank (ln, blank) h = refl
empty-blank (ln, heading) h = ground (arith, h)
empty-blank (ln, fence_open) h = ground (arith, h)
empty-blank (ln, fence_close) h = ground (arith, h)
empty-blank (ln, fence_body) h = ground (arith, h)
empty-blank (ln, list_item) h = ground (arith, h)
empty-blank (ln, list_cont) h = ground (arith, h)
empty-blank (ln, other) h = ground (arith, h)

insert_from-Separated :
    (ln : Bytes) (k : LineKind) (ls : List Line)
    → Solid (ln, k)
    → All Solid ls
    → Separated k (insert_from k (some ln) ls)
unfolding insert_from
insert_from-Separated ln k [] s all = tt
insert_from-Separated ln k ((next, j) ∷ ls) s all =
    let later = insert_from-Separated next j ls all.0 all.1 in
    elim (Bool-cases (need_blank_between k j)) [
      | inr n ↦ ground (arith, n, later)
      | inl y ↦ ground (arith, y, need-Solid ln k j s y, need-blank k, need_after_blank j, later)
    ]

pub both : (a b : Bool) → (a && b) ≡ true → (a ≡ true) × (b ≡ true)
both true true h = (refl, refl)
both true false h = absurd (false≢true h)
both false b h = absurd (false≢true h)

drop_runs-Separated :
    (a : Bool) (k : LineKind) (ls : List Line)
    → (a ≡ true → k ≡ blank)
    → Separated k ls
    → Separated k (drop_runs a ls)
unfolding drop_runs
drop_runs-Separated a k [] h s = tt
drop_runs-Separated a k (l ∷ ls) h s =
    if_cases (Separated k) (is_empty l && a)
      (λ skip.
        let (e, f) = both (is_empty l) a skip in
        drop_runs-Separated true k ls (λ t. h f)
          (subst (λ z. Separated z ls) (empty-blank l e ∙ sym (h f)) s.1))
      (λ stay. (s.0, drop_runs-Separated (is_empty l) l.1 ls (empty-blank l) s.1))

drop_runs-NoRuns : (a : Bool) (ls : List Line) → NoRuns a (drop_runs a ls)
unfolding drop_runs
drop_runs-NoRuns a [] = tt
drop_runs-NoRuns a (l ∷ ls) =
    if_cases (NoRuns a) (is_empty l && a)
      (λ skip.
        subst (λ z. NoRuns z (drop_runs true ls)) (sym (both (is_empty l) a skip).1)
          (drop_runs-NoRuns true ls))
      (λ stay. (stay, drop_runs-NoRuns (is_empty l) ls))

strip_front-Separated :
    (k : LineKind) (ls : List Line) → Separated k ls → Separated blank (strip_front ls)
unfolding strip_front
strip_front-Separated k [] s = tt
strip_front-Separated k (l ∷ ls) s =
    if_both (Separated blank) (is_empty l) (strip_front-Separated l.1 ls s.1)
      (need_after_blank l.1, s.1)

strip_front-NoRuns : (a : Bool) (ls : List Line) → NoRuns a ls → NoRuns true (strip_front ls)
unfolding strip_front
strip_front-NoRuns a [] s = tt
strip_front-NoRuns a (l ∷ ls) s =
    if_cases (NoRuns true) (is_empty l) (λ e. strip_front-NoRuns (is_empty l) ls s.1)
      (λ n. (ap (λ z. z && true) n, s.1))

-- What holds of a list and goes on to shorter ones.
strip_back-Separated :
    (k : LineKind) (ls : List Line) → Separated k ls → Separated k (strip_back ls)
unfolding strip_back
strip_back-Separated k [] s = tt
strip_back-Separated k (l ∷ ls) s =
    if_both (Separated k) (is_nil (strip_back ls) && is_empty l) tt
      (s.0, strip_back-Separated l.1 ls s.1)

strip_back-NoRuns : (a : Bool) (ls : List Line) → NoRuns a ls → NoRuns a (strip_back ls)
unfolding strip_back
strip_back-NoRuns a [] s = tt
strip_back-NoRuns a (l ∷ ls) s =
    if_both (NoRuns a) (is_nil (strip_back ls) && is_empty l) tt
      (s.0, strip_back-NoRuns (is_empty l) ls s.1)

EndsFull-cons :
    (l : Line) (ls : List Line)
    → EndsFull ls
    → (is_nil ls && is_empty l) ≡ false
    → EndsFull (l ∷ ls)
EndsFull-cons l [] s h = ground (arith, h)
EndsFull-cons l (m ∷ ms) s h = s

strip_back-EndsFull : (ls : List Line) → EndsFull (strip_back ls)
unfolding strip_back
strip_back-EndsFull [] = tt
strip_back-EndsFull (l ∷ ls) =
    if_cases EndsFull (is_nil (strip_back ls) && is_empty l) (λ e. tt)
      (EndsFull-cons l (strip_back ls) (strip_back-EndsFull ls))

pub collapse-IsCanonical : (ls : List Line) → Separated blank ls → IsCanonical (collapse ls)
unfolding collapse
collapse-IsCanonical ls s =
    let kept = drop_runs false ls in
    let front = strip_front kept in
    record {
      separated =
          strip_back-Separated blank front
            (strip_front-Separated blank kept (drop_runs-Separated false blank ls (λ e. refl) s));
      no_runs =
          strip_back-NoRuns true front (strip_front-NoRuns false kept (drop_runs-NoRuns false ls));
      ends_full = strip_back-EndsFull front;
    }

pub insert_separators-Separated :
    (ls : List Line) → All Solid ls → Separated blank (insert_separators ls)
unfolding insert_separators insert_from need_blank_between
insert_separators-Separated [] all = tt
insert_separators-Separated ((ln, k) ∷ ls) all =
    (need_after_blank k, insert_from-Separated ln k ls all.0 all.1)

-- On lines in the canonical form the passes change nothing.
insert_from-same :
    (k : LineKind) (last : Option Bytes) (ls : List Line)
    → Separated k ls
    → insert_from k last ls ≡ ls
unfolding insert_from
insert_from-same k last [] s = refl
insert_from-same k last ((ln, j) ∷ ls) s =
    if_cases (λ z. z ≡ (ln, j) ∷ ls) (need_blank_between k j && not_empty last)
      (λ h. absurd (false≢true (sym s.0 ∙ (both (need_blank_between k j) (not_empty last) h).0)))
      (λ h. ap (◌∷◌ (ln, j)) (insert_from-same j (some ln) ls s.1))

drop_runs-same : (a : Bool) (ls : List Line) → NoRuns a ls → drop_runs a ls ≡ ls
unfolding drop_runs
drop_runs-same a [] h = refl
drop_runs-same a (l ∷ ls) h =
    if_cases (λ z. z ≡ l ∷ ls) (is_empty l && a) (λ e. absurd (false≢true (sym h.0 ∙ e)))
      (λ e. ap (◌∷◌ l) (drop_runs-same (is_empty l) ls h.1))

NoRuns-weaken : (ls : List Line) → NoRuns true ls → NoRuns false ls
NoRuns-weaken [] h = tt
NoRuns-weaken (l ∷ ls) h = (ground (arith, h.0), h.1)

strip_front-same : (ls : List Line) → NoRuns true ls → strip_front ls ≡ ls
unfolding strip_front
strip_front-same [] h = refl
strip_front-same (l ∷ ls) h =
    if_cases (λ z. z ≡ l ∷ ls) (is_empty l)
      (λ e. absurd (false≢true (sym h.0 ∙ ap (λ z. z && true) e))) (λ e. refl)

strip_back-same : (ls : List Line) → EndsFull ls → strip_back ls ≡ ls
unfolding strip_back
strip_back-same [] h = refl
strip_back-same (l ∷ []) h = ap (λ b. if b then [] else l ∷ []) h
strip_back-same (l ∷ m ∷ ms) h =
    ap (λ z. if is_nil z && is_empty l then [] else l ∷ z) (strip_back-same (m ∷ ms) h)

pub collapse-same : (ls : List Line) → IsCanonical ls → collapse ls ≡ ls
unfolding collapse
collapse-same ls c =
    ap (λ z. strip_back (strip_front z)) (drop_runs-same false ls (NoRuns-weaken ls c.no_runs))
    ∙ ap strip_back (strip_front-same ls c.no_runs)
    ∙ strip_back-same ls c.ends_full

pub insert_separators-same : (ls : List Line) → IsCanonical ls → insert_separators ls ≡ ls
unfolding insert_separators
insert_separators-same ls c = insert_from-same blank none ls c.separated
