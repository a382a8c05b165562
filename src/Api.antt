-- ===== src/Api.antt =====
-- internal/api/server.go and the view models of internal/ui/server.go. A query of the store may fail;
-- a response is its status and what it is rendered from. Indenting JSON is a parameter, and so is
-- the reading of a URL; the templates are left out.
pub mod Logs
pub mod Detail
use garmx.Prelude.{
  ℕ, ◌*◌, ◌+◌, Bool, true, false, ◌&&◌, ltb, Option, none, some, List, [], ◌∷◌, is_nil,
  if◌then◌else◌, ℤ, pos, negsuc,
}
use garmx.Prelude.Bytes.{Bytes, text, equal}
use garmx.Prelude.Decimal.{atoi}
use garmx.Audit.Store.{Logged, Store, recent, get}
use garmx.Audit.Stats.{Stats, Offsets, stats}

abbrev pub default_recent_limit : ℕ
default_recent_limit = 100

abbrev pub default_refresh_seconds : ℕ
default_refresh_seconds = 2

abbrev pub max_logs_limit : ℕ
max_logs_limit = 1000

-- The store as the handlers use it: a query that fails is `none`. `get` finds a row or not.
pub record Queries : Type 0 where
  pub stats : Option Stats
  pub recent : ℕ → ℕ → Option (List Logged)
  pub get : ℤ → Option (Option Logged)

pub record Server : Type 0 where
  pub store : Queries
  pub indent : Bytes → Option Bytes
  pub recent_limit : ℕ
  pub refresh_seconds : ℕ

unfoldable pub new_server : Queries → (Bytes → Option Bytes) → Server
new_server store indent = record {
  store = store;
  indent = indent;
  recent_limit = default_recent_limit;
  refresh_seconds = default_refresh_seconds;
}

-- The error rate times 100 is left to the template's fraction.
pub record DashboardData : Type 0 where
  pub stats : Stats
  pub recent : List Logged
  pub refresh_seconds : ℕ

pub record DetailData : Type 0 where
  pub entry : Logged
  pub request_pretty : Bytes
  pub response_pretty : Bytes

-- A response: a page or JSON with the status 200, 404, or 500.
pub data Response : Type 0 where
  dashboard : DashboardData → Response
  detail : DetailData → Response
  logs : List Logged → Response
  healthy : Response
  not_found : Response
  server_error : Response

abbrev pub status : Response → ℕ
status (dashboard d) = 200
status (detail d) = 200
status (logs ls) = 200
status healthy = 200
status not_found = 404
status server_error = 500

-- A clamp of a number that may be negative to bounds that are not.
abbrev pub clamp : ℕ → ℕ → ℤ → ℕ
clamp lo hi (negsuc n) = lo
clamp lo hi (pos n) = if ltb n lo then lo else if ltb hi n then hi else n

-- An empty text is no number.
unfoldable pub clamp_atoi : Bytes → ℕ → ℕ → ℕ → ℕ
clamp_atoi s default_value lo hi = elim (atoi s) [
  | none ↦ clamp lo hi (pos default_value)
  | some n ↦ clamp lo hi n
]

unfoldable pub pretty_json : Server → Bytes → Bytes
pretty_json s body = if is_nil body then [] else elim (s.indent body) [ none ↦ body | some t ↦ t ]

unfoldable pub handle_dashboard : Server → Response
handle_dashboard s = elim s.store.stats [
  | none ↦ server_error
  | some st ↦ elim (s.store.recent s.recent_limit 0) [
    | none ↦ server_error
    | some ls ↦ dashboard (record { stats = st; recent = ls; refresh_seconds = s.refresh_seconds })
  ]
]

-- `id` is the path's value.
unfoldable pub handle_log_detail : Server → Bytes → Response
unfolding pretty_json
handle_log_detail s id = elim (atoi id) [
  | none ↦ not_found
  | some n ↦ elim (s.store.get n) [
    | none ↦ server_error
    | some none ↦ not_found
    | some (some l) ↦ detail (record {
      entry = l;
      request_pretty = pretty_json s l.entry.request_payload;
      response_pretty = pretty_json s l.entry.response_payload;
    })
  ]
]

-- `limit` and `offset` are the query's values, empty where there is none.
unfoldable pub handle_logs : Server → Bytes → Bytes → Response
unfolding clamp_atoi
handle_logs s limit offset =
    elim (s.store.recent (clamp_atoi limit s.recent_limit 1 max_logs_limit)
      (clamp_atoi offset 0 0 2_147_483_647)) [ none ↦ server_error | some ls ↦ logs ls ]

unfoldable pub handle_health : Response
handle_health = healthy

-- `Handler`: the routes for a `GET`, by the segments of the path, none of them empty. `limit` and
-- `offset` are the query's.
unfoldable pub handler : Server → List Bytes → Bytes → Bytes → Response
unfolding handle_dashboard handle_log_detail handle_logs handle_health
handler s [] limit offset = handle_dashboard s
handler s (a ∷ []) limit offset = if equal a (text "health") then handle_health else not_found
handler s (a ∷ b ∷ []) limit offset =
    if equal a (text "logs")
    then handle_log_detail s b
    else if equal a (text "api") && equal b (text "logs")
    then handle_logs s limit offset
    else not_found
handler s (a ∷ b ∷ c ∷ rest) limit offset = not_found

-- The queries of a store that works.
abbrev pub queries_of : Offsets → Store → Queries
queries_of offsets store = record {
  stats =
      some (
        stats offsets
          (record { counted = store; at_p50 = store; at_p95 = store; grouped = store }));
  recent = λ limit offset. some (recent limit offset store);
  get = λ id. elim id [ pos n ↦ some (get n store) | negsuc n ↦ some none ];
}
