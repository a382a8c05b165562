-- ===== src/Audit/Stats/Quantile.antt =====
-- The nearest-rank quantile.
use garmx.Prelude.{
  ℕ, zero, suc, ◌+◌, ◌-◌, ◌≤◌, ◌<◌, ◌≡◌, refl, sym, ap, ◌∙◌, subst, Bool, leb, none, some, List, [],
  ◌∷◌, length, keep, In, arith, ◌⊎◌, inl, inr, Bool-cases,
}
use garmx.Audit.Store.{Store}
use garmx.Audit.Stats.{place, order_by, latencies, nth, quantile}

abbrev pub count : {A : Type 0} → (A → Bool) → List A → ℕ
count p xs = length (keep p xs)

List-cases : (xs : List ℕ) → (xs ≡ []) ⊎ (0 < length xs)
List-cases [] = inl refl
List-cases (x ∷ xs) = inr (omega arith)

-- Sorting keeps every count.
count-place :
    {A : Type 0} (before : A → A → Bool) (p : A → Bool) (x : A) (xs : List A)
    → count p (place before x xs) ≡ count p (x ∷ xs)
unfolding place
count-place before p x [] = refl
count-place before p x (y ∷ ys) = ground (arith, count-place before p x ys)

pub count-order_by :
    {A : Type 0} (before : A → A → Bool) (p : A → Bool) (xs : List A)
    → count p (order_by before xs) ≡ count p xs
unfolding order_by
count-order_by before p [] = refl
count-order_by before p (x ∷ xs) =
    ground (arith, count-place before p x (order_by before xs), count-order_by before p xs)

In-place :
    {A : Type 0} (before : A → A → Bool) (v x : A) (xs : List A)
    → In v (place before x xs)
    → In v (x ∷ xs)
unfolding place
In-place before v x [] h = h
In-place before v x (y ∷ ys) h = ground (arith, In-place before v x ys)

pub In-order_by :
    {A : Type 0} (before : A → A → Bool) (v : A) (xs : List A) → In v (order_by before xs) → In v xs
unfolding order_by
In-order_by before v [] h = h
In-order_by before v (x ∷ xs) h = elim (In-place before v x (order_by before xs) h) [
  | inl e ↦ inl e
  | inr m ↦ inr (In-order_by before v xs m)
]

length-place :
    {A : Type 0} (before : A → A → Bool) (x : A) (xs : List A)
    → length (place before x xs) ≡ suc (length xs)
unfolding place
length-place before x [] = refl
length-place before x (y ∷ ys) = ground (arith, length-place before x ys)

pub length-order_by :
    {A : Type 0} (before : A → A → Bool) (xs : List A) → length (order_by before xs) ≡ length xs
unfolding order_by
length-order_by before [] = refl
length-order_by before (x ∷ xs) =
    length-place before x (order_by before xs) ∙ ap suc (length-order_by before xs)

-- No item is below an earlier one; `low` is below all.
abbrev Sorted : ℕ → List ℕ → Type 0
Sorted low [] = Unit
Sorted low (x ∷ xs) = (low ≤ x) × Sorted x xs

Sorted-place : (low x : ℕ) (xs : List ℕ) → low ≤ x → Sorted low xs → Sorted low (place leb x xs)
unfolding place
Sorted-place low x [] l h = (l, tt)
Sorted-place low x (y ∷ ys) l h = elim (Bool-cases (leb x y)) [
  | inl b ↦ ground (arith, b)
  | inr b ↦ ground (arith, b, Sorted-place y x ys)
]

Sorted-order_by : (xs : List ℕ) → Sorted 0 (order_by leb xs)
unfolding order_by
Sorted-order_by [] = tt
Sorted-order_by (x ∷ xs) = Sorted-place 0 x (order_by leb xs) (omega arith) (Sorted-order_by xs)

Sorted-weaken : (low x : ℕ) (xs : List ℕ) → low ≤ x → Sorted x xs → Sorted low xs
Sorted-weaken low x [] l h = tt
Sorted-weaken low x (y ∷ ys) l h = (omega (arith, l, h.0), h.1)

count-above : (low : ℕ) (xs : List ℕ) → Sorted low xs → count (λ y. leb low y) xs ≡ length xs
count-above low [] h = refl
count-above low (x ∷ xs) h =
    ground (arith, h.0, count-above low xs (Sorted-weaken low x xs h.0 h.1))

nth-above : (low k v : ℕ) (xs : List ℕ) → Sorted low xs → nth k xs ≡ some v → low ≤ v
nth-above low k v [] h e = ground arith
nth-above low zero v (x ∷ xs) h e = ground arith
nth-above low (suc k) v (x ∷ xs) h e = let l = nth-above x k v xs h.1 e in omega (arith, l, h.0)

rank_from_below :
    (low k v : ℕ) (xs : List ℕ)
    → Sorted low xs
    → nth k xs ≡ some v
    → suc k ≤ count (λ y. leb y v) xs
rank_from_below low k v [] h e = ground arith
rank_from_below low zero v (x ∷ xs) h e = ground arith
rank_from_below low (suc k) v (x ∷ xs) h e =
    ground (arith, nth-above x k v xs h.1 e, rank_from_below x k v xs h.1 e)

rank_from_above :
    (low k v : ℕ) (xs : List ℕ)
    → Sorted low xs
    → nth k xs ≡ some v
    → length xs ≤ k + count (λ y. leb v y) xs
rank_from_above low k v [] h e = ground arith
rank_from_above low zero v (x ∷ xs) h e =
    let same : x ≡ v = ground arith in
    ground (arith, same, count-above v xs (subst (λ z. Sorted z xs) same h.1))
rank_from_above low (suc k) v (x ∷ xs) h e = ground (arith, rank_from_above x k v xs h.1 e)

nth-some : (k : ℕ) (xs : List ℕ) → k < length xs → (v : ℕ) × (nth k xs ≡ some v)
nth-some k [] h = absurd (omega (arith, h))
nth-some zero (x ∷ xs) h = (x, refl)
nth-some (suc k) (x ∷ xs) h = nth-some k xs (omega (arith, h))

nth-In : (k v : ℕ) (xs : List ℕ) → nth k xs ≡ some v → In v xs
nth-In k v [] e = ground arith
nth-In zero v (x ∷ xs) e = inl (ground arith)
nth-In (suc k) v (x ∷ xs) e = inr (nth-In k v xs e)

-- Of the latencies that are not NULL, the quantile at the offset `k` is one that more than `k` of
-- them do not exceed, and that all but `k` of them reach; of none it is 0. The offset is to be one
-- that does not exceed the last position.
pub quantile_lem :
    (offset : ℕ → ℕ) (s : Store)
    → ((n : ℕ) → offset n ≤ n)
    → let ls = latencies s.rows in
      let k = offset (length ls - 1) in
      ((ls ≡ []) × (quantile offset s ≡ 0))
      ⊎ (In (quantile offset s) ls
          × (k < count (λ y. leb y (quantile offset s)) ls)
          × (length ls ≤ k + count (λ y. leb (quantile offset s) y) ls))
unfolding quantile order_by
quantile_lem offset s small = elim (List-cases (latencies s.rows)) [
  | inl e ↦ inl (e, none_left e)
  | inr some_left ↦
      let ls = latencies s.rows in
      let found = order_by leb ls in
      let k = offset (length ls - 1) in
      let same : offset (length found - 1) ≡ k =
        ap (λ n. offset (n - 1)) (length-order_by leb ls) in
      let (v, e) =
        nth-some k found
          (omega (arith, small (length ls - 1), some_left, length-order_by leb ls)) in
      let is_v : quantile offset s ≡ v = ground (arith, same, e) in
      inr (
        subst
          (λ z. In z ls × (k < count (λ y. leb y z) ls) × (length ls ≤ k + count (λ y. leb z y) ls))
          (sym is_v)
          (
            In-order_by leb v ls (nth-In k v found e),
            omega (
              arith,
              rank_from_below 0 k v found (Sorted-order_by ls) e,
              count-order_by leb (λ y. leb y v) ls,
            ),
            omega (
              arith,
              rank_from_above 0 k v found (Sorted-order_by ls) e,
              count-order_by leb (λ y. leb v y) ls,
              length-order_by leb ls,
            ),
          ))
]
  where
    none_left : latencies s.rows ≡ [] → quantile offset s ≡ 0
    none_left e =
        ap
          (λ ls. elim (nth (offset (length (order_by leb ls) - 1)) (order_by leb ls)) [
            | none ↦ 0
            | some v ↦ v
          ])
          e
