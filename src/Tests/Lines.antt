-- ===== src/Tests/Lines.antt =====
-- A client that sends a line that is no message, and then a request.
use garmx.Prelude.{
  ◌≤◌, ◌<◌, ◌≡◌, refl, true, none, some, List, [], ◌∷◌, ◌++◌, All, length, if◌then◌else◌, ◌⊎◌,
  arith, pos,
}
use garmx.Prelude.Bytes.{Bytes, text, equal}
use garmx.Prelude.Json.{int, str, obj, field, end, malformed, json}
use garmx.Mcp.Frame.{max_line_bytes, last_is, ended, exceeds, read_message, Sink}
use garmx.Mcp.Frame.Lines.{first_line, without_return, TooLong, read_message_lem}
use garmx.Aggregator.Notify.{new_outbox}
use garmx.Frontend.{
  Outgoing, response, notification, Codec, read_lines, Move, receives, Outcome, clean, StdioServer,
  serve,
}
use garmx.Frontend.Input.{FitsLine, write_all, read_lines-write_all}
use garmx.Frontend.Session.{Transcript, wire, serve-Transcript}
use garmx.Tests.Bench.{bench, gateway}
use garmx.Tests.Sessions.{bench-EndsWithin}

read_message_lem_example :
    ((line : Bytes) × (rest : Bytes) × (first_line (text "ab") ≡ some (line, rest))
      × (length line < max_line_bytes)
      × (read_message 16 (text "ab")
          ≡ some (record { message = without_return line; error = none }, rest)))
    ⊎ (((first_line (text "ab") ≡ none)
          × (length (text "ab") ≤ max_line_bytes)
          × (read_message 16 (text "ab")
              ≡ some (record { message = text "ab"; error = some ended }, [])))
        ⊎ (TooLong (first_line (text "ab")) (text "ab")
            × ((rest : Bytes) × (read_message 16 (text "ab")
                  ≡ some (record { message = []; error = some exceeds }, rest)))))
read_message_lem_example = read_message_lem 16 (text "ab") (omega arith)

abbrev pub client : Sink
client = record { taken = []; takes = λ a b. true }

abbrev ping : Bytes
ping = text "ping"

abbrev pub messages : List Bytes
messages = text "oops" ∷ ping ∷ []

messages-FitsLine : All FitsLine messages
unfolding last_is
messages-FitsLine = (
  (
    (λ e. cc),
    (
      (λ e. ground (arith, e)),
      ((λ e. ground (arith, e)), ((λ e. ground (arith, e)), ((λ e. ground (arith, e)), tt))),
    ),
    refl,
    omega arith,
  ),
  (
    (
      (λ e. cc),
      (
        (λ e. ground (arith, e)),
        ((λ e. ground (arith, e)), ((λ e. ground (arith, e)), ((λ e. ground (arith, e)), tt))),
      ),
      refl,
      omega arith,
    ),
    tt,
  ),
)

read_lines-write_all_example : read_lines (write_all messages client).taken ≡ some (messages, ended)
read_lines-write_all_example =
    read_lines-write_all messages client (λ a b. refl) refl messages-FitsLine

abbrev pub codec : Codec
codec = record {
  decode = λ line.
      if equal line ping
      then json (obj (field (text "id") (int (pos 1)) (field (text "method") (str ping) end)))
      else malformed line;
  marshal =
      λ v. some (elim v [ response r ↦ text "response" | notification n ↦ text "notification" ]);
}

abbrev front : StdioServer bench
front = record { agg = gateway; outbox = new_outbox; out = client }

abbrev pub moves : List Move
moves = receives ∷ receives ∷ receives ∷ []

serve-Transcript_example :
    (sent : List Outgoing) × (t : StdioServer bench) × (o : Outcome) × (serve bench codec 1 true
        (write_all messages client).taken
        moves
        front
      ≡ some (t, o))
    × (t.out.taken ≡ [] ++ wire bench codec sent)
    × Transcript bench codec clean messages moves sent o
serve-Transcript_example =
    serve-Transcript bench codec 1 client messages moves front bench-EndsWithin (λ a b. refl) refl
      messages-FitsLine (λ a b. refl)
