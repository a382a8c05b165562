-- ===== src/Audit/Store/Pages.antt =====
-- Pages and single rows.
use mathlib.Core.List.{reverse, map-append}
use mathlib.Core.Bool.{false≢true}
use garmx.Prelude.Bytes.{Bytes}
use garmx.Prelude.{
  ℕ, length, zero, suc, ◌+◌, ◌≤◌, ◌≡◌, refl, sym, ap, ◌∙◌, true, ◌==◌, some, List, [], ◌∷◌, ◌++◌,
  map, take, drop, In, arith, inl, inr, ◌↔◌, Bool-cases, Option-cases,
}
use garmx.Audit.Store.{
  Cells, Logged, Store, scan_log, recent, find_row, get, Transaction, insert_batch,
}
use garmx.Audit.Entry.{LogEntry}
use garmx.Audit.Store.Rows.{
  Ascends, IsTable, insert_batch_lem, appended, rows_from, reverse-appended, drop-append,
  length-rows_from, length-reverse,
}

take-nil : {A : Type 0} (n : ℕ) → ◌≡◌ {A = List A} (take n []) []
take-nil zero = refl
take-nil (suc n) = refl

drop-nil : {A : Type 0} (n : ℕ) → ◌≡◌ {A = List A} (drop n []) []
drop-nil zero = refl
drop-nil (suc n) = refl

take-add : {A : Type 0} (a b : ℕ) (xs : List A) → take (a + b) xs ≡ take a xs ++ take b (drop a xs)
take-add zero b xs = ap (λ n. take n xs) (omega arith)
take-add {A} (suc a) b [] = take-nil {A = A} (suc a + b) ∙ sym (take-nil {A = A} b)
take-add (suc a) b (x ∷ xs) =
    ap (λ n. take n (x ∷ xs)) (succ_add a b) ∙ ap (◌∷◌ x) (take-add a b xs)
  where
    succ_add : (a b : ℕ) → suc a + b ≡ suc (a + b)
    succ_add a b = omega arith

drop-add : {A : Type 0} (a b : ℕ) (xs : List A) → drop b (drop a xs) ≡ drop (a + b) xs
drop-add zero b xs = ap (λ n. drop n xs) (omega arith)
drop-add {A} (suc a) b [] = drop-nil {A = A} b ∙ sym (drop-nil {A = A} (suc a + b))
drop-add (suc a) b (x ∷ xs) = drop-add a b xs ∙ ap (λ n. drop n (x ∷ xs)) (succ_add a b)
  where
    succ_add : (a b : ℕ) → suc (a + b) ≡ suc a + b
    succ_add a b = omega arith

-- Two pages, the second at the offset where the first ends, are one page of both sizes: paging
-- leaves no entry out and shows none twice.
pub recent-append :
    (first second offset : ℕ) (s : Store)
    → recent first offset s ++ recent second (offset + first) s ≡ recent (first + second) offset s
unfolding recent
recent-append first second offset s =
    let xs = drop offset (reverse s.rows) in
    ap (λ z. map scan_log (take first xs) ++ map scan_log (take second z))
      (sym (drop-add offset first (reverse s.rows)))
    ∙ sym (map-append scan_log (take first xs) (take second (drop first xs)))
    ∙ ap (map scan_log) (sym (take-add first second xs))

length-take : {A : Type 0} (n : ℕ) (xs : List A) → length (take n xs) ≤ n
length-take zero xs = omega arith
length-take (suc n) [] = omega arith
length-take (suc n) (x ∷ xs) = omega (arith, length-take n xs)

length-map : {A B : Type 0} (f : A → B) (xs : List A) → length (map f xs) ≡ length xs
length-map f [] = refl
length-map f (x ∷ xs) = ap suc (length-map f xs)

-- A page is not longer than its limit.
pub recent_length : (limit offset : ℕ) (s : Store) → length (recent limit offset s) ≤ limit
unfolding recent
recent_length limit offset s =
    let xs = drop offset (reverse s.rows) in
    omega (arith, length-map scan_log (take limit xs), length-take limit xs)

drop-appended :
    (now : Bytes) (es : List LogEntry) (s : Store) (k : ℕ)
    → drop (length es + k) (reverse (appended now es s).rows) ≡ drop k (reverse s.rows)
drop-appended now es s k =
    let new = rows_from s.next_id now es in
    ap (drop (length es + k)) (reverse-appended now es s)
    ∙ sym (drop-add (length es) k (reverse new ++ reverse s.rows))
    ∙ ap (drop k) (
        drop-append (length es) (reverse new) (reverse s.rows)
          (length-reverse new ∙ length-rows_from s.next_id now es))

-- A batch that is inserted moves every page by its length.
pub recent-insert_batch :
    (tx : Transaction) (es : List LogEntry) (s : Store) (limit k : ℕ)
    → (insert_batch tx es s).0 ≡ true
    → recent limit (length es + k) (insert_batch tx es s).1 ≡ recent limit k s
unfolding recent
recent-insert_batch tx es s limit k h = elim (insert_batch_lem tx es s) [
  | inl failed ↦ absurd (false≢true (sym (ap (λ r. r.0) failed) ∙ h))
  | inr done ↦
      ap (λ r. map scan_log (take limit (drop (length es + k) (reverse r.1.rows)))) done
      ∙ ap (λ z. map scan_log (take limit z)) (drop-appended tx.now es s k)
]

Ascends-In :
    (low : ℕ) (cs : List Cells) (high : ℕ) (c : Cells) → Ascends low cs high → In c cs → low ≤ c.id
Ascends-In low [] high c h m = absurd m
Ascends-In low (x ∷ cs) high c h (inl e) = omega (arith, h.0, ap (λ z. z.id) e)
Ascends-In low (x ∷ cs) high c h (inr m) = omega (arith, h.0, Ascends-In (x.id + 1) cs high c h.1 m)

find_row_iff :
    (low high id : ℕ) (cs : List Cells) (c : Cells)
    → Ascends low cs high
    → (find_row id cs ≡ some c) ↔ (In c cs × (c.id ≡ id))
find_row_iff low high id [] c h = ((λ e. ground arith), λ m. absurd m.0)
find_row_iff low high id (x ∷ cs) c h = elim (Bool-cases (x.id == id)) [
  | inl same ↦ (
    (λ e. ground arith),
    λ (m, e). elim m [
      | inl r ↦ ground arith
      | inr i ↦ absurd (omega (arith, Ascends-In (x.id + 1) cs high c h.1 i, at same))
    ],
  )
  | inr other ↦ (
    (λ e. let (m, q) = (find_row_iff (x.id + 1) high id cs c h.1).0 (ground arith) in (inr m, q)),
    λ (m, e). elim m [
      | inl r ↦ ground (arith, ap (λ z. z.id) r)
      | inr i ↦ ground (arith, (find_row_iff (x.id + 1) high id cs c h.1).1 (i, e))
    ],
  )
]
  where
    at : x.id == id ≡ true → x.id ≡ id
    at h = ground arith

-- In a store whose ids are all different, `Get` finds an entry exactly if it is that of a row with
-- this id.
pub get_iff :
    (s : Store) (id : ℕ) (l : Logged)
    → IsTable s
    → (get id s ≡ some l) ↔ ((c : Cells) × In c s.rows × (c.id ≡ id) × (scan_log c ≡ l))
unfolding get
get_iff s id l h = (
  λ e. elim (Option-cases (find_row id s.rows)) [
    | inl none_found ↦ ground arith
    | inr (c, f) ↦
        let (m, q) = (find_row_iff 0 s.next_id id s.rows c h).0 f in (c, m, q, ground arith)
  ],
  λ (c, m, q, e). ground (arith, (find_row_iff 0 s.next_id id s.rows c h).1 (m, q), e),
)
