-- ===== src/Frontend.antt =====
-- internal/frontend/stdio.go: the client-facing server. The loop over channels is a list of moves:
-- what the `select` takes next, and when an upstream's goroutine pushes a notification; writes are
-- whole, as under the mutex. Go's `encoding/json` between bytes and documents is a parameter.
pub mod Input
pub mod Session
use garmx.Prelude.{
  ℕ, zero, suc, ◌+◌, Bool, true, false, Option, none, some, List, [], ◌∷◌, length, is_nil, ◌>>=◌,
  if◌then◌else◌,
}
use garmx.Prelude.Bytes.{Bytes, text}
use garmx.Prelude.Json.{Raw, absent}
use garmx.Mcp.Message.{
  Response, Notification, Envelope, parse, is_request, is_notification, new_error_response,
  code_parse_error,
}
use garmx.Mcp.Frame.{ReadError, exceeds, ended, Read, read_message, Sink, write_message}
use garmx.Aggregator.Core.{Environment, Aggregator}
use garmx.Aggregator.Dispatch.{handle, handle_notification}
use garmx.Aggregator.Notify.{Outbox, set_client_notifier}

-- What the server writes.
pub data Outgoing : Type 0 where
  response : Response → Outgoing
  notification : Notification → Outgoing

pub record Codec : Type 0 where
  pub decode : Bytes → Raw
  pub marshal : Outgoing → Option Bytes

abbrev pub reader_size : ℕ
reader_size = 65536

-- The reading goroutine: the lines that it sends, and the error that ends it; `none` is out of fuel.
unfoldable pub read_from : ℕ → Bytes → Option (List Bytes × ReadError)
unfolding read_message
read_from zero input = none
read_from (suc fuel) input = elim (read_message reader_size input) [
  | none ↦ none
  | some (r, rest) ↦ elim r.error [
    | some e ↦ some ((if is_nil r.message then [] else r.message ∷ []), e)
    | none ↦ read_from fuel rest >>= λ (lines, e).
        some ((if is_nil r.message then lines else r.message ∷ lines), e)
  ]
]

-- Every message but the last one has a newline.
unfoldable pub read_lines : Bytes → Option (List Bytes × ReadError)
unfolding read_from
read_lines input = read_from (length input + 1) input

-- What happens next: the loop takes a line or the reader's error, it sees that the context is done,
-- or an upstream's notification is pushed.
pub data Move : Type 0 where
  receives : Move
  cancels : Move
  pushes : Notification → Move

-- The loop goes on, or `Serve` has returned: nil, the context's error, or the reader's.
pub data Outcome : Type 0 where
  serving : Outcome
  clean : Outcome
  cancelled : Outcome
  failed : Outcome

-- `eof` says that the input ends with io.EOF.
abbrev pub outcome_of : Bool → ReadError → Outcome
outcome_of eof exceeds = failed
outcome_of eof ended = if eof then clean else failed

module _ (N : Environment) where
  -- `outbox` is the part of the aggregator that pushes to the client.
  pub record StdioServer : Type 0 where
    pub agg : Aggregator N
    pub outbox : Outbox
    pub out : Sink

  module _ (C : Codec) where
    unfoldable pub write_out : Outgoing → StdioServer → StdioServer
    unfolding write_message
    write_out v s = record s { out = (write_message (C.marshal v) s.out).1 }

    unfoldable pub push_notification : Notification → StdioServer → StdioServer
    unfolding write_out
    push_notification n s = write_out (notification n) s

    unfoldable pub dispatch : ℕ → Bytes → StdioServer → Option StdioServer
    unfolding write_out
    dispatch fuel line s = elim (parse (C.decode line)) [
      | none ↦
          some (
            write_out (response (new_error_response absent code_parse_error (text "parse error")))
              s)
      | some env ↦
          if is_request env
          then (handle N fuel s.agg env >>= λ (resp, agg).
              some (write_out (response resp) (record s { agg = agg })))
          else if is_notification env
          then some (record s { agg = handle_notification N s.agg env })
          else some s
    ]

    -- The loop, over the lines and the error of the reading goroutine.
    unfoldable pub serve_loop :
        ℕ → List Bytes → Outcome → List Move → StdioServer → Option (StdioServer × Outcome)
    unfolding dispatch push_notification
    serve_loop fuel lines end [] s = some (s, serving)
    serve_loop fuel lines end (cancels ∷ ms) s = some (s, cancelled)
    serve_loop fuel lines end (pushes n ∷ ms) s =
        serve_loop fuel lines end ms (push_notification n s)
    serve_loop fuel [] end (receives ∷ ms) s = some (s, end)
    serve_loop fuel (line ∷ lines) end (receives ∷ ms) s =
        dispatch fuel line s >>= λ t. serve_loop fuel lines end ms t

    unfoldable pub serve :
        ℕ → Bool → Bytes → List Move → StdioServer → Option (StdioServer × Outcome)
    unfolding read_lines serve_loop set_client_notifier
    serve fuel eof input moves s = read_lines input >>= λ (lines, e).
        serve_loop fuel lines (outcome_of eof e) moves
          (record s { outbox = set_client_notifier s.outbox })
