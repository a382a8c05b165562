-- ===== src/Audit/Store/Rows.antt =====
-- What is inserted is what is read.
use mathlib.Core.List.{append_assoc, append-nil, reverse, reverse-append, map-append}
use garmx.Prelude.{
  ℕ, zero, suc, ◌+◌, ◌≤◌, ◌≡◌, refl, sym, ap, ◌∙◌, subst, true, false, ◌&&◌, none, some, List, [],
  ◌∷◌, ◌++◌, map, take, drop, length, arith, ◌⊎◌, inl, inr, Bool-cases, length-append,
}
use garmx.Prelude.Bytes.{Bytes}
use garmx.Audit.Entry.{LogEntry}
use garmx.Audit.Store.{
  Cells, Store, insert_row, scan_log, Transaction, exec_all, insert_batch, recent,
}

-- Ids ascend from `low`, below `high`.
abbrev pub Ascends : ℕ → List Cells → ℕ → Type 0
Ascends low [] high = low ≤ high
Ascends low (c ∷ cs) high = (low ≤ c.id) × Ascends (c.id + 1) cs high

-- No two rows share an id, and the next id is above all of them.
abbrev pub IsTable : Store → Type 0
IsTable s = Ascends 0 s.rows s.next_id

Ascends-concat :
    (low : ℕ) (cs : List Cells) (high : ℕ) (c : Cells)
    → Ascends low cs high
    → c.id ≡ high
    → Ascends low (cs ++ (c ∷ [])) (high + 1)
Ascends-concat low [] high c h e = (omega (arith, h, e), omega (arith, h, e))
Ascends-concat low (x ∷ cs) high c h e = (h.0, Ascends-concat (x.id + 1) cs high c h.1 e)

-- The rows that a batch becomes.
abbrev pub rows_from : ℕ → Bytes → List LogEntry → List Cells
rows_from id now [] = []
rows_from id now (e ∷ es) = insert_row id now e ∷ rows_from (id + 1) now es

scan_log-insert_row :
    (id : ℕ) (now : Bytes) (e : LogEntry)
    → scan_log (insert_row id now e) ≡ record { id = id; entry = e; created_at = now }
unfolding scan_log insert_row
scan_log-insert_row id now e = elim (Bool-cases e.truncated) [
  | inl t ↦ ground (arith, t)
  | inr t ↦ ground (arith, t)
]

map-reverse {ℓ} : {A B : Type ℓ} (f : A → B) (xs : List A) → map f (reverse xs) ≡ reverse (map f xs)
map-reverse f [] = refl
map-reverse f (x ∷ xs) =
    ap (map f) (reverse-append (x ∷ []) xs)
    ∙ map-append f (reverse xs) (x ∷ [])
    ∙ ap (λ z. z ++ (f x ∷ [])) (map-reverse f xs)
    ∙ sym (reverse-append (f x ∷ []) (map f xs))

pub length-reverse : {A : Type 0} (xs : List A) → length (reverse xs) ≡ length xs
length-reverse [] = refl
length-reverse (x ∷ xs) =
    ap length (reverse-append (x ∷ []) xs)
    ∙ omega (arith, length-append (reverse xs) (x ∷ []), length-reverse xs)

pub take-append : {A : Type 0} (n : ℕ) (xs ys : List A) → length xs ≡ n → take n (xs ++ ys) ≡ xs
take-append zero [] ys h = refl
take-append zero (x ∷ xs) ys h = absurd (omega (arith, h))
take-append (suc n) [] ys h = absurd (omega (arith, h))
take-append (suc n) (x ∷ xs) ys h = ap (◌∷◌ x) (take-append n xs ys (omega (arith, h)))

pub drop-append : {A : Type 0} (n : ℕ) (xs ys : List A) → length xs ≡ n → drop n (xs ++ ys) ≡ ys
drop-append zero [] ys h = refl
drop-append zero (x ∷ xs) ys h = absurd (omega (arith, h))
drop-append (suc n) [] ys h = absurd (omega (arith, h))
drop-append (suc n) (x ∷ xs) ys h = drop-append n xs ys (omega (arith, h))

pub length-rows_from :
    (id : ℕ) (now : Bytes) (es : List LogEntry) → length (rows_from id now es) ≡ length es
length-rows_from id now [] = refl
length-rows_from id now (e ∷ es) = ap suc (length-rows_from (id + 1) now es)

entries-rows_from :
    (id : ℕ) (now : Bytes) (es : List LogEntry)
    → map (λ c. (scan_log c).entry) (rows_from id now es) ≡ es
entries-rows_from id now [] = refl
entries-rows_from id now (e ∷ es) =
    ap (λ r. r.entry ∷ map (λ c. (scan_log c).entry) (rows_from (id + 1) now es))
      (scan_log-insert_row id now e)
    ∙ ap (◌∷◌ e) (entries-rows_from (id + 1) now es)

-- The rows of a batch, behind those of the store.
abbrev pub appended : Bytes → List LogEntry → Store → Store
appended now es s = record {
  rows = s.rows ++ rows_from s.next_id now es;
  next_id = s.next_id + length es;
}

exec_all_lem :
    (tx : Transaction) (es : List LogEntry) (s : Store)
    → (exec_all tx es s ≡ none) ⊎ (exec_all tx es s ≡ some (appended tx.now es s))
unfolding exec_all
exec_all_lem tx [] s = inr (ap some (ground (arith, append-nil s.rows)))
exec_all_lem tx (e ∷ es) s =
    let next : Store = record {
      rows = s.rows ++ (insert_row s.next_id tx.now e ∷ []);
      next_id = s.next_id + 1;
    } in
    let same : appended tx.now es next ≡ appended tx.now (e ∷ es) s = ground (
      arith,
      append_assoc s.rows (insert_row s.next_id tx.now e ∷ [])
          (rows_from (s.next_id + 1) tx.now es),
    ) in
    elim (Bool-cases (tx.execs e)) [
      | inl y ↦ elim (exec_all_lem tx es next) [
        | inl none_left ↦ inl (ground (arith, y, none_left))
        | inr some_left ↦ inr (ground (arith, y, some_left, same))
      ]
      | inr n ↦ inl (ground (arith, n))
    ]

-- All of a batch or nothing of it.
pub insert_batch_lem :
    (tx : Transaction) (es : List LogEntry) (s : Store)
    → (insert_batch tx es s ≡ (false, s)) ⊎ (insert_batch tx es s ≡ (true, appended tx.now es s))
unfolding insert_batch
insert_batch_lem tx [] s = inr (ground (arith, append-nil s.rows))
insert_batch_lem tx (e ∷ es) s = elim (exec_all_lem tx (e ∷ es) s) [
  | inl failed ↦ inl (ground (arith, failed))
  | inr done ↦ elim (Bool-cases (tx.begins && tx.prepares)) [
    | inr b ↦ inl (ground (arith, b))
    | inl b ↦ elim (Bool-cases tx.commits) [
      | inl c ↦ inr (ground (arith, done, b, c))
      | inr c ↦ inl (ground (arith, done, b, c))
    ]
  ]
]

appended-IsTable_from :
    (low : ℕ) (cs : List Cells) (id : ℕ) (now : Bytes) (es : List LogEntry)
    → Ascends low cs id
    → Ascends low (cs ++ rows_from id now es) (id + length es)
unfolding insert_row
appended-IsTable_from low [] id now [] h = omega (arith, h)
appended-IsTable_from low [] id now (e ∷ es) h = (
  h,
  subst (λ n. Ascends (id + 1) (rows_from (id + 1) now es) n) (omega arith)
      (appended-IsTable_from (id + 1) [] (id + 1) now es (omega arith)),
)
appended-IsTable_from low (c ∷ cs) id now es h =
    (h.0, appended-IsTable_from (c.id + 1) cs id now es h.1)

-- After a batch.
pub reverse-appended :
    (now : Bytes) (es : List LogEntry) (s : Store)
    → reverse (appended now es s).rows ≡ reverse (rows_from s.next_id now es) ++ reverse s.rows
reverse-appended now es s = reverse-append s.rows (rows_from s.next_id now es)

map-map :
    {A B C : Type 0} (f : B → C) (g : A → B) (xs : List A)
    → map f (map g xs) ≡ map (λ x. f (g x)) xs
map-map f g [] = refl
map-map f g (x ∷ xs) = ap (◌∷◌ (f (g x))) (map-map f g xs)

-- Either a batch fails, and the store is as it was; or its entries are the newest ones, in reverse
-- order and with every column as it was written, the ids are still all different, and behind them
-- every page of the old entries is as before.
pub insert_batch-recent :
    (tx : Transaction) (es : List LogEntry) (s : Store)
    → IsTable s
    → (insert_batch tx es s ≡ (false, s))
      ⊎ (((insert_batch tx es s).0 ≡ true)
          × IsTable (insert_batch tx es s).1
          × (map (λ r. r.entry) (recent (length es) 0 (insert_batch tx es s).1) ≡ reverse es)
          × ((limit : ℕ) → recent limit (length es) (insert_batch tx es s).1 ≡ recent limit 0 s))
unfolding recent
insert_batch-recent tx es s h = elim (insert_batch_lem tx es s) [
  | inl failed ↦ inl failed
  | inr done ↦
      let new = rows_from s.next_id tx.now es in
      let size : length (reverse new) ≡ length es =
        length-reverse new ∙ length-rows_from s.next_id tx.now es in
      inr (
        subst
          (λ r.
            (r.0 ≡ true)
            × IsTable r.1
            × (map (λ r. r.entry) (map scan_log (take (length es) (reverse r.1.rows))) ≡ reverse es)
            × ((limit : ℕ)
                → map scan_log (take limit (drop (length es) (reverse r.1.rows)))
                  ≡ map scan_log (take limit (reverse s.rows))))
          (sym done)
          (
            refl,
            appended-IsTable_from 0 s.rows s.next_id tx.now es h,
            ap (λ z. map (λ r. r.entry) (map scan_log (take (length es) z)))
                  (reverse-appended tx.now es s)
                ∙ ap (λ z. map (λ r. r.entry) (map scan_log z))
                    (take-append (length es) (reverse new) (reverse s.rows) size)
                ∙ map-map (λ r. r.entry) scan_log (reverse new)
                ∙ map-reverse (λ c. (scan_log c).entry) new
                ∙ ap reverse (entries-rows_from s.next_id tx.now es),
            λ limit.
                ap (λ z. map scan_log (take limit z))
                  (ap (drop (length es)) (reverse-appended tx.now es s)
                    ∙ drop-append (length es) (reverse new) (reverse s.rows) size),
          ))
]
