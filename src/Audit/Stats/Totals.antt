-- ===== src/Audit/Stats/Totals.antt =====
-- The breakdown by server adds up to the totals.
use mathlib.Core.Bool.{false≢true}
use garmx.Prelude.{
  ℕ, suc, ◌+◌, ◌≤◌, ◌≡◌, refl, sym, ap, ◌∙◌, subst, Bool, true, false, Option, none, some, List, [],
  ◌∷◌, map, length, length-append, ◌++◌, any, In, Unique, if◌then◌else◌, arith, inl, inr, ◌↔◌,
  Bool-cases, any-true, true-any,
}
use garmx.Prelude.Bytes.{Bytes, equal_iff}
use garmx.Audit.Store.{Cells}
use garmx.Audit.Stats.{
  ServerStat, Offsets, Snapshots, place, order_by, is_error, same_name, group_names, group, sum,
  server_stat, group_before, per_server, stats,
}
use garmx.Audit.Stats.Quantile.{count}

same_name_iff : (a b : Option Bytes) → (same_name a b ≡ true) ↔ (a ≡ b)
unfolding same_name
same_name_iff none none = ground arith
same_name_iff none (some b) = ground arith
same_name_iff (some a) none = ground arith
same_name_iff (some a) (some b) =
    ((λ h. ap some ((equal_iff a b).0 h)), λ h. (equal_iff a b).1 (ground arith))

map-map :
    {A B C : Type 0} (f : B → C) (g : A → B) (xs : List A)
    → map f (map g xs) ≡ map (λ x. f (g x)) xs
map-map f g [] = refl
map-map f g (x ∷ xs) = ap (◌∷◌ (f (g x))) (map-map f g xs)

map_same : {A B : Type 0} (f g : A → B) (xs : List A) → ((x : A) → f x ≡ g x) → map f xs ≡ map g xs
map_same f g [] h = refl
map_same f g (x ∷ xs) h = ground (arith, h x, map_same f g xs h)

-- The sum over a list of names.
abbrev total : (Option Bytes → ℕ) → List (Option Bytes) → ℕ
total f names = sum (map f names)

total-place :
    (before : Option Bytes → Option Bytes → Bool) (f : Option Bytes → ℕ) (n : Option Bytes)
    (ns : List (Option Bytes))
    → total f (place before n ns) ≡ f n + total f ns
unfolding place
total-place before f n [] = refl
total-place before f n (m ∷ ns) = ground (arith, total-place before f n ns)

total-order_by :
    (before : Option Bytes → Option Bytes → Bool) (f : Option Bytes → ℕ) (ns : List (Option Bytes))
    → total f (order_by before ns) ≡ total f ns
unfolding order_by
total-order_by before f [] = refl
total-order_by before f (n ∷ ns) =
    omega (arith, total-place before f n (order_by before ns), total-order_by before f ns)

listed : (n : Option Bytes) (ns : List (Option Bytes)) → any (same_name n) ns ≡ true → In n ns
listed n ns h =
    let (m, i, e) = any-true (same_name n) ns h in
    subst (λ z. In z ns) (sym ((same_name_iff n m).0 e)) i

unlisted :
    (n : Option Bytes) (ns : List (Option Bytes)) → any (same_name n) ns ≡ false → In n ns → ⊥
unlisted n ns h m = false≢true (sym h ∙ true-any (same_name n) n ns m ((same_name_iff n n).1 refl))

not_listed :
    (n : Option Bytes) (ns : List (Option Bytes)) → (In n ns → ⊥) → any (same_name n) ns ≡ false
not_listed n ns h = elim (Bool-cases (any (same_name n) ns)) [
  | inl e ↦ absurd (h (listed n ns e))
  | inr e ↦ e
]

group_names-Unique : (cs : List Cells) → Unique (group_names cs)
unfolding group_names
group_names-Unique [] = tt
group_names-Unique (c ∷ cs) = elim (Bool-cases (any (same_name c.server_name) (group_names cs))) [
  | inl old ↦ ground (arith, old, group_names-Unique cs)
  | inr new ↦
      ground (arith, new, unlisted c.server_name (group_names cs) new, group_names-Unique cs)
]

group_names-In : (c : Cells) (cs : List Cells) → In c cs → In c.server_name (group_names cs)
unfolding group_names
group_names-In c [] m = absurd m
group_names-In c (d ∷ cs) m = elim (Bool-cases (any (same_name d.server_name) (group_names cs))) [
  | inl old ↦ elim m [
    | inl e ↦ ground (
      arith,
      old,
      subst (λ x. In x.server_name (group_names cs)) (sym e)
          (listed d.server_name (group_names cs) old),
    )
    | inr i ↦ ground (arith, old, group_names-In c cs i)
  ]
  | inr new ↦ elim m [
    | inl e ↦ ground (arith, new, ap (λ x. x.server_name) e)
    | inr i ↦ ground (arith, new, group_names-In c cs i)
  ]
]

-- How many rows of a kind a name has.
abbrev of_name : (Cells → Bool) → List Cells → Option Bytes → ℕ
of_name p cs name = count p (group name cs)

-- One more row counts for its own name only.
total-cons :
    (p : Cells → Bool) (c : Cells) (cs : List Cells) (names : List (Option Bytes))
    → Unique names
    → total (of_name p (c ∷ cs)) names
      ≡ (if any (same_name c.server_name) names then count p (c ∷ []) else 0)
        + total (of_name p cs) names
unfolding group
total-cons p c cs [] u = refl
total-cons p c cs (n ∷ ns) u = elim (Bool-cases (same_name c.server_name n)) [
  | inl same ↦
      let none_later : any (same_name c.server_name) ns ≡ false =
        not_listed c.server_name ns
          (λ m. u.0 (subst (λ z. In z ns) ((same_name_iff c.server_name n).0 same) m)) in
      ground (arith, same, none_later, total-cons p c cs ns u.1)
  | inr differ ↦ ground (arith, differ, total-cons p c cs ns u.1)
]

total-nil : (p : Cells → Bool) (names : List (Option Bytes)) → total (of_name p []) names ≡ 0
unfolding group
total-nil p [] = refl
total-nil p (n ∷ ns) = omega (arith, total-nil p ns)

total-of_name :
    (p : Cells → Bool) (cs : List Cells) (names : List (Option Bytes))
    → Unique names
    → ((c : Cells) → In c cs → In c.server_name names)
    → total (of_name p cs) names ≡ count p cs
total-of_name p [] names u h = total-nil p names
total-of_name p (c ∷ cs) names u h =
    let seen : any (same_name c.server_name) names ≡ true =
      true-any (same_name c.server_name) c.server_name names (h c (inl refl))
        ((same_name_iff c.server_name c.server_name).1 refl) in
    ground (arith, total-cons p c cs names u, seen, total-of_name p cs names u (λ d m. h d (inr m)))

count-all : {A : Type 0} (xs : List A) → count (λ x. true) xs ≡ length xs
count-all [] = refl
count-all (x ∷ xs) = ap suc (count-all xs)

-- The sums over the servers.
per_server-calls : (cs : List Cells) → sum (map (λ r. r.calls) (per_server cs)) ≡ length cs
unfolding per_server server_stat
per_server-calls cs =
    ap sum (map-map (λ r. r.calls) (server_stat cs) (order_by (group_before cs) (group_names cs)))
    ∙ ap sum (
        map_same (λ n. length (group n cs)) (of_name (λ x. true) cs)
          (order_by (group_before cs) (group_names cs)) (λ n. sym (count-all (group n cs))))
    ∙ total-order_by (group_before cs) (of_name (λ x. true) cs) (group_names cs)
    ∙ total-of_name (λ x. true) cs (group_names cs) (group_names-Unique cs)
        (λ c. group_names-In c cs)
    ∙ count-all cs

per_server-errors :
    (cs : List Cells) → sum (map (λ r. r.errors) (per_server cs)) ≡ count is_error cs
unfolding per_server server_stat
per_server-errors cs =
    ap sum (map-map (λ r. r.errors) (server_stat cs) (order_by (group_before cs) (group_names cs)))
    ∙ total-order_by (group_before cs) (of_name is_error cs) (group_names cs)
    ∙ total-of_name is_error cs (group_names cs) (group_names-Unique cs) (λ c. group_names-In c cs)

-- From most calls to fewest, below `high`.
abbrev pub Falls : ℕ → List ServerStat → Type 0
Falls high [] = Unit
Falls high (r ∷ rs) = (r.calls ≤ high) × Falls r.calls rs

place-Falls :
    (cs : List Cells) (high : ℕ) (n : Option Bytes) (ns : List (Option Bytes))
    → length (group n cs) ≤ high
    → Falls high (map (server_stat cs) ns)
    → Falls high (map (server_stat cs) (place (group_before cs) n ns))
unfolding place server_stat group_before
place-Falls cs high n [] l h = (l, tt)
place-Falls cs high n (m ∷ ns) l h = elim (Bool-cases (group_before cs n m)) [
  | inl b ↦ ground (arith, b)
  | inr b ↦ ground (arith, b, place-Falls cs (length (group m cs)) n ns)
]

group_size : (cs : List Cells) (n : Option Bytes) → length (group n cs) ≤ length cs
unfolding group
group_size [] n = omega arith
group_size (c ∷ cs) n = ground (arith, group_size cs n)

order_by-Falls :
    (cs : List Cells) (ns : List (Option Bytes))
    → Falls (length cs) (map (server_stat cs) (order_by (group_before cs) ns))
unfolding order_by
order_by-Falls cs [] = tt
order_by-Falls cs (n ∷ ns) =
    place-Falls cs (length cs) n (order_by (group_before cs) ns) (group_size cs n)
      (order_by-Falls cs ns)

count-append :
    {A : Type 0} (p : A → Bool) (xs ys : List A) → count p (xs ++ ys) ≡ count p xs + count p ys
count-append p [] ys = omega arith
count-append p (x ∷ xs) ys = ground (arith, count-append p xs ys)

-- If rows are only inserted while the statements run, `more` of them between the count and the
-- breakdown by server, the breakdown covers every call of the count and each of these rows once: its
-- calls add up to the calls counted and the rows inserted since, its errors likewise, and it goes
-- from the server with most calls to the one with fewest.
pub stats_totals :
    (offsets : Offsets) (s : Snapshots) (more : List Cells)
    → s.grouped.rows ≡ s.counted.rows ++ more
    → let st = stats offsets s in
      (sum (map (λ r. r.calls) st.per_server) ≡ st.total_calls + length more)
      × (sum (map (λ r. r.errors) st.per_server) ≡ st.errors + count is_error more)
      × (st.total_calls ≡ length s.counted.rows)
      × (st.errors ≡ count is_error s.counted.rows)
      × Falls (st.total_calls + length more) st.per_server
unfolding stats per_server
stats_totals offsets s more h =
    let size : length s.grouped.rows ≡ length s.counted.rows + length more =
      ap length h ∙ length-append s.counted.rows more in
    (
      per_server-calls s.grouped.rows ∙ size,
      per_server-errors s.grouped.rows
          ∙ ap (count is_error) h
          ∙ count-append is_error s.counted.rows more,
      refl,
      refl,
      subst (λ n. Falls n (per_server s.grouped.rows)) size
          (order_by-Falls s.grouped.rows (group_names s.grouped.rows)),
    )
