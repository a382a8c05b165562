-- ===== src/Tests/Wire.antt =====
-- A request over the pipes of a child process, with a line between it and its response.
use garmx.Prelude.{ℕ, ◌⊎◌, none, ◌≡◌, refl, true, false, none, some, [], ◌∷◌, ◌++◌, inl, pos}
use garmx.Prelude.Bytes.{Bytes, text, equal, lower}
use garmx.Prelude.Decimal.{decimal, decimal-injective}
use garmx.Prelude.Json.{int, obj, field, end, Raw, absent, malformed, json}
use garmx.Prelude.Assoc.{bytes_eq, lookup, insert}
use garmx.Mcp.Message.{Envelope, parse, envelope_fields, has_id, is_response}
use garmx.Upstream.Pending.{new_pending, register}
use garmx.Upstream.Stdio.Reading.{Answered, Child, Waits, read_loop, Settled, read_loop-Settled}
use garmx.Upstream.Stdio.{StdioTransport, Texts, new_stdio_transport, begin_send, dispatch_line}
use garmx.Upstream.Stdio.Routing.{dispatch_all, send-dispatch}
use garmx.Upstream.Stdio.Ids.{begins, sends, send-keeps_waiters}

abbrev id_text : Raw → Bytes
id_text (json (int (pos n))) = decimal n
id_text r = []

abbrev texts : Texts
texts = record { decimal = decimal; raw_text = id_text }

abbrev reply_line : Raw
reply_line = json (obj (field (text "id") (int (pos 1)) (field (text "result") (obj end) end)))

abbrev reply_envelope : Envelope
reply_envelope = record {
  jsonrpc = [];
  id = json (int (pos 1));
  method = [];
  params = absent;
  result = json (obj end);
  error = none;
}

send-dispatch_example :
    let sent = begin_send texts true (text "ping") absent new_stdio_transport in
    let before = dispatch_all texts ((true, malformed (text "oops")) ∷ []) sent.1 in
    (sent.0 ≡ some 0)
    × ((dispatch_line texts true reply_line before).pend.sent
        ≡ before.pend.sent
          ++ ((
            0,
            record { jsonrpc = []; id = json (int (pos 1)); result = json (obj end); error = none },
          )
              ∷ []))
unfolding new_stdio_transport new_pending parse envelope_fields equal lower is_response has_id
send-dispatch_example =
    send-dispatch texts (text "ping") absent new_stdio_transport
      ((true, malformed (text "oops")) ∷ []) true reply_line reply_envelope refl (inl refl, tt) refl
      refl refl

send-keeps_waiters_example :
    lookup
      (decimal 1)
      (begin_send texts false
        (text "ping")
        absent
        (begin_send texts true (text "ping") absent new_stdio_transport).1).1.pend.waiters
    ≡ some 0
unfolding new_stdio_transport new_pending begin_send register lookup insert equal decimal
send-keeps_waiters_example =
    send-keeps_waiters texts decimal-injective
      (begin_send texts true (text "ping") absent new_stdio_transport).1
      (sends true (text "ping") absent begins) false (text "ping") absent (decimal 1) 0 refl

abbrev waiting : StdioTransport
waiting = (begin_send texts true (text "ping") absent new_stdio_transport).1

abbrev child : Child
child = record { decode = λ line. malformed line; writes = λ line. true }

waiting-Waits : Waits texts child (decimal 1) 0 waiting
unfolding new_stdio_transport new_pending begin_send register lookup insert equal decimal
waiting-Waits = refl

read_loop-Settled_example :
    (u : StdioTransport) × (read_loop texts child (text "oops" ++ (10 ∷ text "end")) waiting
      ≡ some u)
    × Settled texts child u
    × ((k : Bytes)
        → (lookup k waiting.pend.waiters ≡ none)
          ⊎ ((ch : ℕ) × Waits texts child k ch waiting × Answered texts child ch u))
unfolding new_stdio_transport begin_send register
read_loop-Settled_example =
    read_loop-Settled texts child (text "oops" ++ (10 ∷ text "end")) waiting refl
