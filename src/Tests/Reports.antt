-- ===== src/Tests/Reports.antt =====
-- A store with two rows behind one batch, its statistics, and what it shows over HTTP.
use mathlib.Core.List.{reverse}
use garmx.Prelude.{
  ℕ, ◌+◌, ◌-◌, ◌/◌, ◌≤◌, ◌<◌, ◌≡◌, ◌≢◌, refl, true, false, none, some, List, [], ◌∷◌, ◌++◌, map,
  length, leb, In, ◌⊎◌, arith, ℤ, pos, negsuc, inr,
}
use garmx.Prelude.Bytes.{text}
use garmx.Prelude.Decimal.{decimal, atoi}
use garmx.Audit.Entry.{LogEntry, to_entry}
use garmx.Audit.Store.{
  Cells, Logged, Store, insert_row, Transaction, scan_log, insert_batch, recent,
}
use garmx.Audit.Store.Rows.{IsTable, insert_batch-recent}
use garmx.Audit.Stats.{Offsets, Snapshots, is_error, sum, latencies, quantile, stats}
use garmx.Audit.Stats.Quantile.{count, quantile_lem}
use garmx.Audit.Stats.Totals.{Falls, stats_totals}
use garmx.Api.{Server, logs, not_found, server_error, handler, queries_of}
use garmx.Api.Logs.{answer_of, handle_logs_bounds, pages_lem}
use garmx.Api.Detail.{page_of, stored, handle_log_detail_lem}
use garmx.Tests.Records.{writer, call_event}

abbrev entry : LogEntry
entry = to_entry writer call_event

abbrev works : Transaction
works = record {
  begins = true;
  prepares = true;
  execs = λ e. true;
  commits = true;
  now = text "now";
}

abbrev store : Store
store = record {
  rows = insert_row 1 (text "then") entry ∷ insert_row 2 (text "then") entry ∷ [];
  next_id = 3;
}

store-IsTable : IsTable store
unfolding insert_row
store-IsTable = (omega arith, (omega arith, omega arith))

insert_batch-recent_example :
    (insert_batch works (entry ∷ []) store ≡ (false, store))
    ⊎ (((insert_batch works (entry ∷ []) store).0 ≡ true)
        × IsTable (insert_batch works (entry ∷ []) store).1
        × (map (λ r. r.entry) (recent 1 0 (insert_batch works (entry ∷ []) store).1)
            ≡ reverse (entry ∷ []))
        × ((limit : ℕ)
            → recent limit 1 (insert_batch works (entry ∷ []) store).1 ≡ recent limit 0 store))
insert_batch-recent_example = insert_batch-recent works (entry ∷ []) store store-IsTable

halves : (n : ℕ) → n / 2 ≤ n
halves n = omega arith

quantile_lem_example :
    let ls = latencies store.rows in
    let k = (length ls - 1) / 2 in
    ((ls ≡ []) × (quantile (λ n. n / 2) store ≡ 0))
    ⊎ (In (quantile (λ n. n / 2) store) ls
        × (k < count (λ y. leb y (quantile (λ n. n / 2) store)) ls)
        × (length ls ≤ k + count (λ y. leb (quantile (λ n. n / 2) store) y) ls))
quantile_lem_example = quantile_lem (λ n. n / 2) store halves

abbrev offsets : Offsets
offsets = record { p50 = λ n. n / 2; p95 = λ n. n }

-- A row goes in behind the count.
abbrev snapshots : Snapshots
snapshots = record {
  counted = record { rows = insert_row 1 (text "then") entry ∷ []; next_id = 2 };
  at_p50 = store;
  at_p95 = store;
  grouped = store;
}

stats_totals_example :
    let st = stats offsets snapshots in
    (sum (map (λ r. r.calls) st.per_server) ≡ st.total_calls + 1)
    × (sum (map (λ r. r.errors) st.per_server)
        ≡ st.errors + count is_error (insert_row 2 (text "then") entry ∷ []))
    × (st.total_calls ≡ 1)
    × (st.errors ≡ count is_error (insert_row 1 (text "then") entry ∷ []))
    × Falls (st.total_calls + 1) st.per_server
stats_totals_example = stats_totals offsets snapshots (insert_row 2 (text "then") entry ∷ []) refl

abbrev server : Server
server = record {
  store = queries_of offsets store;
  indent = λ b. some b;
  recent_limit = 100;
  refresh_seconds = 2;
}

-- The same server, later.
abbrev later : Server
later = record server { store = queries_of offsets (insert_batch works (entry ∷ []) store).1 }

handle_logs_bounds_example :
    (l : ℕ) × (o : ℕ) × (1 ≤ l)
    × (l ≤ 1000)
    × (o ≤ 2_147_483_647)
    × (handler server (text "api" ∷ text "logs" ∷ []) (text "5000") (text "x")
        ≡ answer_of (server.store.recent l o))
handle_logs_bounds_example = handle_logs_bounds server (text "5000") (text "x")

pages_lem_example :
    (one : List Logged) × (again : List Logged) × (two : List Logged) × (handler server
        (text "api" ∷ text "logs" ∷ [])
        (decimal 1)
        (decimal 0)
      ≡ logs (one ++ again))
    × (handler later (text "api" ∷ text "logs" ∷ []) (decimal 1) (decimal 1) ≡ logs two)
    × (length again ≤ 1)
    × (one ++ two ≡ recent 1 0 store)
unfolding insert_batch
pages_lem_example =
    pages_lem server later works (entry ∷ []) store 1 1 0 refl refl (omega arith) refl (omega arith)
      (omega arith) (omega arith) (omega arith) (omega arith)

server-reads : (z : ℤ) → (server.store.get z ≡ none) ⊎ (server.store.get z ≡ some (stored store z))
server-reads (pos n) = inr refl
server-reads (negsuc n) = inr refl

handle_log_detail_lem_example :
    let r = handler server (text "logs" ∷ text "2" ∷ []) [] [] in
    ((r ≡ server_error) × ((z : ℤ) × (atoi (text "2") ≡ some z) × (server.store.get z ≡ none)))
    ⊎ (((n : ℕ) × (c : Cells) × (atoi (text "2") ≡ some (pos n))
          × In c store.rows
          × (c.id ≡ n)
          × (server.store.get (pos n) ≢ none)
          × (r ≡ page_of server (scan_log c)))
        ⊎ ((r ≡ not_found)
            × ((atoi (text "2") ≡ none)
                ⊎ ((z : ℤ) × (atoi (text "2") ≡ some z)
                    × (server.store.get z ≢ none)
                    × ((c : Cells) → In c store.rows → pos c.id ≢ z)))))
handle_log_detail_lem_example =
    handle_log_detail_lem server store (text "2") store-IsTable server-reads
