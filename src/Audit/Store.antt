-- ===== src/Audit/Store.antt =====
-- internal/audit/store.go on a table: the rows of `audit_logs`, by id, as SQLite keeps them. What a
-- statement answers when it fails is part of the call. Opening the database and its schema are left
-- out.
pub mod Rows
pub mod Pages
use mathlib.Core.List.{reverse}
use garmx.Prelude.{
  ℕ, ◌+◌, Bool, true, false, ◌==◌, ltb, not, ◌&&◌, Option, none, some, List, [], ◌∷◌, ◌++◌, map,
  take, drop, is_nil, if◌then◌else◌, ℤ,
}
use garmx.Prelude.Bytes.{Bytes}
use garmx.Prelude.Json.{Raw}
use garmx.Audit.Entry.{LogEntry}

-- One row as SQLite holds it; `none` is NULL.
pub record Cells : Type 0 where
  pub id : ℕ
  pub session_id : Bytes
  pub client_name : Option Bytes
  pub client_version : Option Bytes
  pub server_name : Option Bytes
  pub method : Bytes
  pub tool_exposed : Option Bytes
  pub tool_original : Option Bytes
  pub rpc_id : Option Raw
  pub request_payload : Option Bytes
  pub response_payload : Option Bytes
  pub payload_bytes : Option ℕ
  pub truncated : ℕ
  pub latency_ms : Option ℕ
  pub error_code : Option ℤ
  pub error_message : Option Bytes
  pub created_at : Bytes

-- A `LogEntry` as a query returns it, with the two columns that the database fills.
pub record Logged : Type 0 where
  pub id : ℕ
  pub entry : LogEntry
  pub created_at : Bytes

-- `next_id` is the id that AUTOINCREMENT gives next.
pub record Store : Type 0 where
  pub rows : List Cells
  pub next_id : ℕ

unfoldable pub bool_to_int : Bool → ℕ
bool_to_int b = if b then 1 else 0

-- What `INSERT` puts into the table at the time `now`.
unfoldable pub insert_row : ℕ → Bytes → LogEntry → Cells
unfolding bool_to_int
insert_row id now e = record {
  id = id;
  session_id = e.session_id;
  client_name = some e.client_name;
  client_version = some e.client_version;
  server_name = some e.server_name;
  method = e.method;
  tool_exposed = some e.tool_exposed;
  tool_original = some e.tool_original;
  rpc_id = some e.rpc_id;
  request_payload = some e.request_payload;
  response_payload = some e.response_payload;
  payload_bytes = some e.payload_bytes;
  truncated = bool_to_int e.truncated;
  latency_ms = some e.latency_ms;
  error_code = e.error_code;
  error_message = some e.error_message;
  created_at = now;
}

-- A NULL string is the empty one, and a NULL number 0.
abbrev pub null_string : Option Bytes → Bytes
null_string none = []
null_string (some s) = s

abbrev pub null_int : Option ℕ → ℕ
null_int none = 0
null_int (some n) = n

abbrev pub null_raw : Option Raw → Raw
null_raw none = Raw.absent
null_raw (some r) = r

unfoldable pub scan_log : Cells → Logged
scan_log c = record {
  id = c.id;
  entry = record {
    session_id = c.session_id;
    client_name = null_string c.client_name;
    client_version = null_string c.client_version;
    server_name = null_string c.server_name;
    method = c.method;
    tool_exposed = null_string c.tool_exposed;
    tool_original = null_string c.tool_original;
    rpc_id = null_raw c.rpc_id;
    request_payload = null_string c.request_payload;
    response_payload = null_string c.response_payload;
    payload_bytes = null_int c.payload_bytes;
    truncated = not (c.truncated == 0);
    latency_ms = null_int c.latency_ms;
    error_code = c.error_code;
    error_message = null_string c.error_message;
  };
  created_at = c.created_at;
}

-- Which statements of a transaction succeed: its beginning, the preparation, each `INSERT`, and the
-- commit; and the time.
pub record Transaction : Type 0 where
  pub begins : Bool
  pub prepares : Bool
  pub execs : LogEntry → Bool
  pub commits : Bool
  pub now : Bytes

-- The loop of `InsertBatch` inside the transaction; `none` is a statement that failed.
unfoldable pub exec_all : Transaction → List LogEntry → Store → Option Store
unfolding insert_row
exec_all tx [] s = some s
exec_all tx (e ∷ es) s =
    let rest =
      exec_all tx es (record {
        rows = s.rows ++ (insert_row s.next_id tx.now e ∷ []);
        next_id = s.next_id + 1;
      }) in
    if tx.execs e then rest else none

-- `InsertBatch`: whether there was no error, and the store behind it. A transaction that does not
-- commit leaves no trace.
unfoldable pub insert_batch : Transaction → List LogEntry → Store → Bool × Store
unfolding exec_all
insert_batch tx entries s =
    if is_nil entries
    then (true, s)
    else if not (tx.begins && tx.prepares)
    then (false, s)
    else elim (exec_all tx entries s) [
      | none ↦ (false, s)
      | some done ↦ if tx.commits then (true, done) else (false, s)
    ]

-- `Recent`: ORDER BY id DESC LIMIT limit OFFSET offset.
unfoldable pub recent : ℕ → ℕ → Store → List Logged
unfolding scan_log
recent limit offset s = map scan_log (take limit (drop offset (reverse s.rows)))

abbrev pub find_row : ℕ → List Cells → Option Cells
find_row id [] = none
find_row id (c ∷ cs) = if c.id == id then some c else find_row id cs

-- `Get`; `none` where there is no such row.
unfoldable pub get : ℕ → Store → Option Logged
unfolding scan_log
get id s = elim (find_row id s.rows) [ none ↦ none | some c ↦ some (scan_log c) ]
