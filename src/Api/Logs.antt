-- ===== src/Api/Logs.antt =====
-- Pages of the log over HTTP.
use garmx.Prelude.{
  ℕ, length, sym, true, ◌-◌, ◌+◌, ◌≤◌, ◌≡◌, ap, ◌∙◌, Option, none, some, List, [], ◌∷◌, ◌++◌, arith,
}
use garmx.Prelude.Bytes.{Bytes, text, equal}
use garmx.Prelude.Decimal.{decimal, atoi-decimal}
use garmx.Audit.Store.{Logged, Store, Transaction, recent, insert_batch}
use garmx.Audit.Store.Pages.{recent-append, recent-insert_batch, recent_length}
use garmx.Audit.Entry.{LogEntry}
use garmx.Api.{
  Server, Response, logs, server_error, clamp_atoi, handle_logs, handler, max_logs_limit,
}

-- What the handler makes of the query's answer.
abbrev pub answer_of : Option (List Logged) → Response
answer_of none = server_error
answer_of (some ls) = logs ls

clamp_atoi_bounds :
    (s : Bytes) (d lo hi : ℕ) → lo ≤ hi → (lo ≤ clamp_atoi s d lo hi) × (clamp_atoi s d lo hi ≤ hi)
unfolding clamp_atoi
clamp_atoi_bounds s d lo hi h = ground arith

clamp_atoi-decimal :
    (n d lo hi : ℕ)
    → lo ≤ n
    → n ≤ hi
    → n ≤ 9_223_372_036_854_775_807
    → clamp_atoi (decimal n) d lo hi ≡ n
unfolding clamp_atoi
clamp_atoi-decimal n d lo hi l h b = ground (arith, atoi-decimal n b)

-- Whatever the query says, the store is asked for one page of 1 to 1000 entries, at an offset that
-- 31 bits hold, and the response is that page, or 500 if the query of the store fails.
pub handle_logs_bounds :
    (s : Server) (limit offset : Bytes)
    → (l : ℕ) × (o : ℕ) × (1 ≤ l)
      × (l ≤ 1000)
      × (o ≤ 2_147_483_647)
      × (handler s (text "api" ∷ text "logs" ∷ []) limit offset ≡ answer_of (s.store.recent l o))
unfolding handler handle_logs equal
handle_logs_bounds s limit offset =
    let l = clamp_atoi limit s.recent_limit 1 max_logs_limit in
    let o = clamp_atoi offset 0 0 2_147_483_647 in
    let (a, b) = clamp_atoi_bounds limit s.recent_limit 1 max_logs_limit (omega arith) in
    let (c, d) = clamp_atoi_bounds offset 0 0 2_147_483_647 (omega arith) in
    (l, o, a, b, d, ground arith)

handle_logs-decimal :
    (s : Server) (l o : ℕ)
    → 1 ≤ l
    → l ≤ 1000
    → o ≤ 2_147_483_647
    → handler s (text "api" ∷ text "logs" ∷ []) (decimal l) (decimal o)
      ≡ answer_of (s.store.recent l o)
unfolding handler handle_logs equal
handle_logs-decimal s l o a b c = ground (
  arith,
  clamp_atoi-decimal l s.recent_limit 1 max_logs_limit a b (omega (arith, b)),
  clamp_atoi-decimal o 0 0 2_147_483_647 (omega arith) c (omega (arith, c)),
)

-- A client asks for a page and then for the next one, with sizes from 1 to 1000 and offsets that 31
-- bits hold; in between a batch is inserted, no longer than the first page may be, or none. If
-- neither query fails, the first page ends in entries that the second one may show again, at most as
-- many as were inserted; without these, the two pages together are the entries that were the newest
-- ones behind the first offset at the first request, each once and in order, and none left out.
pub pages_lem :
    (s later : Server) (tx : Transaction) (es : List LogEntry) (store : Store)
    (first second offset : ℕ)
    → s.store.recent first offset ≡ some (recent first offset store)
    → (insert_batch tx es store).0 ≡ true
    → length es ≤ first
    → later.store.recent second (offset + first)
      ≡ some (recent second (offset + first) (insert_batch tx es store).1)
    → 1 ≤ first
    → first ≤ 1000
    → 1 ≤ second
    → second ≤ 1000
    → offset + first ≤ 2_147_483_647
    → (one : List Logged) × (again : List Logged) × (two : List Logged) × (handler s
          (text "api" ∷ text "logs" ∷ [])
          (decimal first)
          (decimal offset)
        ≡ logs (one ++ again))
      × (handler later (text "api" ∷ text "logs" ∷ []) (decimal second) (decimal (offset + first))
          ≡ logs two)
      × (length again ≤ length es)
      × (one ++ two ≡ recent ((first - length es) + second) offset store)
pages_lem s later tx es store first second offset q inserted short q' a b c d e =
    let n = length es in
    let kept = first - n in
    let whole : recent first offset store
        ≡ recent kept offset store ++ recent n (offset + kept) store =
      ap (λ z. recent z offset store) (omega (arith, short))
      ∙ sym (recent-append kept n offset store) in
    let moved : recent second (offset + first) (insert_batch tx es store).1
        ≡ recent second (offset + kept) store =
      ap (λ z. recent second z (insert_batch tx es store).1) (omega (arith, short))
      ∙ recent-insert_batch tx es store second (offset + kept) inserted in
    (
      recent kept offset store,
      recent n (offset + kept) store,
      recent second (offset + kept) store,
      handle_logs-decimal s first offset a b (omega (arith, e)) ∙ ap answer_of (q ∙ ap some whole),
      handle_logs-decimal later second (offset + first) c d e ∙ ap answer_of (q' ∙ ap some moved),
      recent_length n (offset + kept) store,
      recent-append kept second offset store,
    )
