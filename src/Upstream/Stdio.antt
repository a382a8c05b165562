-- ===== src/Upstream/Stdio.antt =====
-- The state and the messages of internal/upstream/stdio.go: `Send` up to its wait and behind it,
-- `Notify`, `dispatch` and `markDown`; Reading has `readLoop`. Child processes and pipes are left
-- out: a write to the child succeeds or not, and a line read from it is a document. How a number and
-- an id are written as text is a parameter.
pub mod Routing
pub mod Ids
pub mod Reading
use garmx.Prelude.{
  ℕ, zero, suc, ◌+◌, Bool, true, false, Option, none, some, List, [], ◌∷◌, ◌++◌, if◌then◌else◌,
}
use garmx.Prelude.Bytes.{Bytes, text}
use garmx.Prelude.Json.{Raw}
use garmx.Prelude.Assoc.{bytes_eq}
use garmx.Mcp.Message.{
  Error, new_error, Response, Notification, new_notification, Envelope, parse, is_response,
  is_notification, is_request, new_error_response, code_method_not_found, code_internal_error,
  jsonrpc_version,
}
use garmx.Upstream.Transport.{Status, unknown, online, offline, Reply, result, rpc_error}
use garmx.Upstream.Pending.{Pending, new_pending, register, resolve, cancel, close_all}

-- `decimal` writes an id of the transport, `raw_text` the id of a message.
pub record Texts : Type 0 where
  pub decimal : ℕ → Bytes
  pub raw_text : Raw → Bytes

-- A line that was written to the child.
pub data Line : Type 0 where
  request : Bytes → Bytes → Raw → Line
  notification : Notification → Line
  response : Response → Line

-- `handled` says that a notification handler is set, `notified` is what it was called with, and
-- `down` is the state of `downOnce`.
pub record StdioTransport : Type 0 where
  pub pend : Pending Bytes Response
  pub next_id : ℕ
  pub status : Status
  pub handled : Bool
  pub down : Bool
  pub written : List Line
  pub notified : List Notification

unfoldable pub new_stdio_transport : StdioTransport
unfolding new_pending
new_stdio_transport = record {
  pend = new_pending;
  next_id = 0;
  status = unknown;
  handled = false;
  down = false;
  written = [];
  notified = [];
}

-- `writeLine`, where the write succeeds or not.
abbrev pub write_line : Bool → Line → StdioTransport → StdioTransport
write_line writes line t = if writes then record t { written = t.written ++ (line ∷ []) } else t

-- `Notify`; the result says whether there was no error.
unfoldable pub notify : Bool → Bytes → Raw → StdioTransport → Bool × StdioTransport
notify writes method params t =
    (writes, write_line writes (notification (new_notification method params)) t)

-- What `Send` returns for the response on its channel.
unfoldable pub reply_of : Response → Reply
reply_of resp = elim resp.error [ none ↦ result resp.result | some e ↦ rpc_error e ]

-- `Send` behind its wait for the response to `id`: `none` is a context that was done first.
unfoldable pub end_send : Bytes → Option Response → StdioTransport → Option Reply × StdioTransport
unfolding reply_of
end_send id none t = (none, record t { pend = cancel id t.pend })
end_send id (some resp) t = (some (reply_of resp), t)

unfoldable pub mark_down : StdioTransport → StdioTransport
mark_down t = if t.down then t else record t {
  down = true;
  status = offline;
  pend =
      close_all
        (record {
          jsonrpc = jsonrpc_version;
          id = Raw.absent;
          result = Raw.absent;
          error = some (new_error code_internal_error (text "upstream stopped"));
        })
        t.pend;
}

module _ (T : Texts) where
  -- `Send` up to its wait: the channel to wait on, or `none` for an error.
  unfoldable pub begin_send : Bool → Bytes → Raw → StdioTransport → Option ℕ × StdioTransport
  begin_send writes method params t =
      let id = T.decimal (t.next_id + 1) in
      let (ch, pend) = register id t.pend in
      let counted = record t { next_id = t.next_id + 1; pend = pend } in
      elim ch [
        | none ↦ (none, counted)
        | some c ↦
            if writes
            then (some c, write_line true (request id method params) counted)
            else (none, record counted { pend = cancel id pend })
      ]

  -- A line from the child; `writes` says whether an answer to it can be written.
  unfoldable pub dispatch_line : Bool → Raw → StdioTransport → StdioTransport
  dispatch_line writes line t = elim (parse line) [
    | none ↦ t
    | some env ↦
        if is_response env
        then record t {
          pend =
              (resolve (T.raw_text env.id)
                (record {
                  jsonrpc = env.jsonrpc;
                  id = env.id;
                  result = env.result;
                  error = env.error;
                })
                t.pend).1;
        }
        else if is_notification env
        then if t.handled
          then record t { notified = t.notified ++ (new_notification env.method env.params ∷ []) }
          else t
        else if is_request env
        then write_line writes
            (response (
              new_error_response env.id code_method_not_found
                (text "server-to-client requests are not supported")))
            t
        else t
  ]
