-- ===== src/Audit/Stats.antt =====
-- internal/audit/stats.go on the table of Audit/Store. A query that fails is left to the caller. The
-- offset of a quantile is a product of floating-point numbers, cut to an integer: a parameter. The
-- average is that of exact numbers, cut to an integer; the error rate is kept as a fraction.
pub mod Quantile
pub mod Totals
use garmx.Prelude.{
  ℕ, zero, suc, ◌+◌, ◌-◌, ◌/◌, Bool, true, false, ◌&&◌, ◌||◌, not, ltb, leb, ◌==◌, Option, none,
  some, List, [], ◌∷◌, map, length, keep, any, is_some, if◌then◌else◌,
}
use garmx.Prelude.Bytes.{Bytes, equal, less}
use garmx.Audit.Store.{Cells, Store, null_string}

pub record ServerStat : Type 0 where
  pub server : Bytes
  pub calls : ℕ
  pub errors : ℕ
  pub avg_ms : ℕ

-- `error_rate` is `none` for the rate 0 of no calls, and else errors and calls.
pub record Stats : Type 0 where
  pub total_calls : ℕ
  pub errors : ℕ
  pub error_rate : Option (ℕ × ℕ)
  pub p50_ms : ℕ
  pub p95_ms : ℕ
  pub per_server : List ServerStat

-- The offsets `0.50 * m` and `0.95 * m` of the two quantiles.
pub record Offsets : Type 0 where
  pub p50 : ℕ → ℕ
  pub p95 : ℕ → ℕ

-- ORDER BY: an item goes before the first one that it precedes.
unfoldable pub place : {A : Type 0} → (A → A → Bool) → A → List A → List A
place before x [] = x ∷ []
place before x (y ∷ ys) =
    let rest = place before x ys in if before x y then x ∷ y ∷ ys else y ∷ rest

unfoldable pub order_by : {A : Type 0} → (A → A → Bool) → List A → List A
unfolding place
order_by before [] = []
order_by before (x ∷ xs) = place before x (order_by before xs)

-- The latencies that are not NULL.
unfoldable pub latencies : List Cells → List ℕ
latencies [] = []
latencies (c ∷ cs) = elim c.latency_ms [ none ↦ latencies cs | some n ↦ n ∷ latencies cs ]

abbrev pub nth : ℕ → List ℕ → Option ℕ
nth n [] = none
nth zero (x ∷ xs) = some x
nth (suc n) (x ∷ xs) = nth n xs

-- `quantile`, with its offset; of no latencies it is 0.
unfoldable pub quantile : (ℕ → ℕ) → Store → ℕ
unfolding order_by
quantile offset s =
    let found = order_by leb (latencies s.rows) in
    elim (nth (offset (length found - 1)) found) [ none ↦ 0 | some v ↦ v ]

-- `error_code IS NOT NULL`
abbrev pub is_error : Cells → Bool
is_error c = is_some c.error_code

unfoldable pub same_name : Option Bytes → Option Bytes → Bool
same_name none none = true
same_name none (some b) = false
same_name (some a) none = false
same_name (some a) (some b) = equal a b

-- NULL sorts first.
unfoldable pub name_before : Option Bytes → Option Bytes → Bool
name_before none b = true
name_before (some a) none = false
name_before (some a) (some b) = not (less b a)

-- GROUP BY server_name: each name once.
unfoldable pub group_names : List Cells → List (Option Bytes)
unfolding same_name
group_names [] = []
group_names (c ∷ cs) =
    let rest = group_names cs in
    if any (same_name c.server_name) rest then rest else c.server_name ∷ rest

-- The rows of a group.
unfoldable pub group : Option Bytes → List Cells → List Cells
unfolding same_name
group name cs = keep (λ c. same_name c.server_name name) cs

abbrev pub sum : List ℕ → ℕ
sum [] = 0
sum (n ∷ ns) = n + sum ns

abbrev pub average : List ℕ → ℕ
average [] = 0
average (n ∷ ns) = sum (n ∷ ns) / length (n ∷ ns)

unfoldable pub server_stat : List Cells → Option Bytes → ServerStat
unfolding group latencies
server_stat rows name =
    let mine = group name rows in
    record {
      server = null_string name;
      calls = length mine;
      errors = length (keep is_error mine);
      avg_ms = average (latencies mine);
    }

-- ORDER BY COUNT(*) DESC, server_name
unfoldable pub group_before : List Cells → Option Bytes → Option Bytes → Bool
unfolding group name_before
group_before rows a b =
    let m = length (group a rows) in
    let n = length (group b rows) in ltb n m || (m == n && name_before a b)

unfoldable pub per_server : List Cells → List ServerStat
unfolding server_stat group_names order_by group_before
per_server rows = map (server_stat rows) (order_by (group_before rows) (group_names rows))

-- The table as each of the statements of `Stats` finds it: they run one after the other, outside of
-- a transaction, and the writer may insert rows in between.
pub record Snapshots : Type 0 where
  pub counted : Store
  pub at_p50 : Store
  pub at_p95 : Store
  pub grouped : Store

-- `Stats`
unfoldable pub stats : Offsets → Snapshots → Stats
unfolding quantile per_server
stats offsets s =
    let calls = length s.counted.rows in
    let errors = length (keep is_error s.counted.rows) in
    record {
      total_calls = calls;
      errors = errors;
      error_rate = if ltb 0 calls then some (errors, calls) else none;
      p50_ms = quantile offsets.p50 s.at_p50;
      p95_ms = quantile offsets.p95 s.at_p95;
      per_server = per_server s.grouped.rows;
    }
