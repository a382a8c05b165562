-- ===== src/Frontend/Session.antt =====
-- A client's session: what it is answered.
use mathlib.Core.List.{append_assoc, append-nil}
use garmx.Prelude.{
  ℕ, ◌≡◌, refl, sym, ap, ◌∙◌, subst, Bool, true, false, Option, none, some, List, [], ◌∷◌, ◌++◌,
  All, arith, ◌⊎◌, inl, inr, Bool-cases, Option-cases,
}
use garmx.Prelude.Bytes.{Bytes, text}
use garmx.Prelude.Json.{absent}
use garmx.Mcp.Message.{
  Response, Notification, Envelope, parse, is_request, is_notification, new_error_response,
  code_parse_error,
}
use garmx.Mcp.Frame.{ReadError, newline, Sink, write_message}
use garmx.Aggregator.Core.{Environment, Aggregator}
use garmx.Aggregator.Dispatch.{handle_notification}
use garmx.Aggregator.Answers.{EndsWithin, Answers, handle-Replies}
use garmx.Aggregator.Notify.{set_client_notifier}
use garmx.Frontend.{
  Outgoing, response, notification, Codec, read_lines, Move, receives, cancels, pushes, Outcome,
  serving, cancelled, clean, outcome_of, StdioServer, write_out, push_notification, dispatch,
  serve_loop, serve,
}
use garmx.Frontend.Input.{
  FitsLine, Takes, write_message-taken, write_all, read_lines-write_all, read_lines-total,
}

-- The error that a line gets which is no message.
abbrev pub parse_failure : Response
parse_failure = new_error_response absent code_parse_error (text "parse error")

module _ (N : Environment) (C : Codec) where
  -- Which messages a session may write, in this order, and how it stands behind its last move.
  pub data Transcript (end : Outcome)
      : List Bytes → List Move → List Outgoing → Outcome → Type 0 where
    waits : {lines : List Bytes} → Transcript end lines [] [] serving
    stopped :
        {lines : List Bytes} {ms : List Move} → Transcript end lines (cancels ∷ ms) [] cancelled
    over : {ms : List Move} → Transcript end [] (receives ∷ ms) [] end
    pushed :
        {lines : List Bytes} {ms : List Move} {sent : List Outgoing} {o : Outcome}
        (n : Notification)
        → Transcript end lines ms sent o
        → Transcript end lines (pushes n ∷ ms) (notification n ∷ sent) o
    refused :
        {lines : List Bytes} {ms : List Move} {sent : List Outgoing} {o : Outcome} (line : Bytes)
        → parse (C.decode line) ≡ none
        → Transcript end lines ms sent o
        → Transcript end (line ∷ lines) (receives ∷ ms) (response parse_failure ∷ sent) o
    answered :
        {lines : List Bytes} {ms : List Move} {sent : List Outgoing} {o : Outcome} (line : Bytes)
        (env : Envelope) (resp : Response)
        → parse (C.decode line) ≡ some env
        → is_request env ≡ true
        → Answers N env resp
        → Transcript end lines ms sent o
        → Transcript end (line ∷ lines) (receives ∷ ms) (response resp ∷ sent) o
    unanswered :
        {lines : List Bytes} {ms : List Move} {sent : List Outgoing} {o : Outcome} (line : Bytes)
        (env : Envelope)
        → parse (C.decode line) ≡ some env
        → is_request env ≡ false
        → Transcript end lines ms sent o
        → Transcript end (line ∷ lines) (receives ∷ ms) sent o

  -- What is written of a message: its document and a newline, or nothing if it has none.
  abbrev pub line_of : Outgoing → Bytes
  line_of v = elim (C.marshal v) [ none ↦ [] | some p ↦ p ++ (newline ∷ []) ]

  abbrev pub wire : List Outgoing → Bytes
  wire [] = []
  wire (v ∷ vs) = line_of v ++ wire vs

  -- The session runs as a transcript says, and its output is the messages of this, one line each.
  abbrev pub Runs :
      ℕ
      → List Bytes
      → Outcome
      → List Move
      → StdioServer N
      → Option (StdioServer N × Outcome)
      → Type 0
  Runs fuel lines end ms s r =
      (sent : List Outgoing) × (t : StdioServer N) × (o : Outcome) × (r ≡ some (t, o))
      × (t.out.taken ≡ s.out.taken ++ wire sent)
      × Transcript end lines ms sent o

  write_out-taken :
      (v : Outgoing) (s : StdioServer N)
      → Takes s.out
      → (write_out N C v s).out ≡ record (s.out) { taken = s.out.taken ++ line_of v }
  unfolding write_out write_message
  write_out-taken v s takes = elim (Option-cases (C.marshal v)) [
    | inl e ↦ ground (arith, e, append-nil s.out.taken)
    | inr (p, e) ↦ ground (arith, e, write_message-taken p s.out takes)
  ]

  -- What the server does with a line.
  abbrev Dispatched : ℕ → Bytes → StdioServer N → Type 0
  Dispatched fuel line s =
      ((parse (C.decode line) ≡ none)
        × (dispatch N C fuel line s ≡ some (write_out N C (response parse_failure) s)))
      ⊎ ((env : Envelope) × (parse (C.decode line) ≡ some env)
          × (((is_request env ≡ true)
                × ((resp : Response) × (a : Aggregator N) × Answers N env resp
                    × (dispatch N C fuel line s
                        ≡ some (write_out N C (response resp) (record s { agg = a })))))
              ⊎ ((is_request env ≡ false)
                  × ((a : Aggregator N) × (dispatch N C fuel line s
                        ≡ some (record s { agg = a }))))))

  dispatch_lem :
      (fuel : ℕ) (line : Bytes) (s : StdioServer N) → EndsWithin N fuel → Dispatched fuel line s
  unfolding dispatch
  dispatch_lem fuel line s ends = elim (Option-cases (parse (C.decode line))) [
    | inl e ↦ inl (e, ground (arith, e))
    | inr (env, e) ↦ inr (
      env,
      e,
      elim (Bool-cases (is_request env)) [
        | inl q ↦
            let (resp, a, h, answers) = handle-Replies N fuel ends s.agg env in
            inl (q, (resp, a, answers, ground (arith, e, q, h)))
        | inr q ↦ elim (Bool-cases (is_notification env)) [
          | inl n ↦ inr (q, (handle_notification N s.agg env, ground (arith, e, q, n)))
          | inr n ↦ inr (q, (s.agg, ground (arith, e, q, n)))
        ]
      ],
    )
  ]

  Takes-write_out : (v : Outgoing) (s : StdioServer N) → Takes s.out → Takes (write_out N C v s).out
  Takes-write_out v s takes = subst Takes (sym (write_out-taken v s takes)) takes

  -- A message before those of the rest of the session.
  taken-cons :
      (v : Outgoing) (sent : List Outgoing) (s : StdioServer N) (last : Bytes)
      → Takes s.out
      → last ≡ (write_out N C v s).out.taken ++ wire sent
      → last ≡ s.out.taken ++ wire (v ∷ sent)
  taken-cons v sent s last takes e =
      e
      ∙ ap (λ z. z.taken ++ wire sent) (write_out-taken v s takes)
      ∙ append_assoc s.out.taken (line_of v) (wire sent)

  serve_loop-Runs :
      (fuel : ℕ) (lines : List Bytes) (end : Outcome) (ms : List Move) (s : StdioServer N)
      → EndsWithin N fuel
      → Takes s.out
      → Runs fuel lines end ms s (serve_loop N C fuel lines end ms s)
  unfolding serve_loop push_notification
  serve_loop-Runs fuel lines end [] s ends takes =
      ([], s, serving, refl, sym (append-nil s.out.taken), waits)
  serve_loop-Runs fuel lines end (cancels ∷ ms) s ends takes =
      ([], s, cancelled, refl, sym (append-nil s.out.taken), stopped)
  serve_loop-Runs fuel lines end (pushes n ∷ ms) s ends takes =
      let (sent, t, o, e, w, h) =
        serve_loop-Runs fuel lines end ms (write_out N C (notification n) s) ends
          (Takes-write_out (notification n) s takes) in
      (
        notification n ∷ sent,
        t,
        o,
        e,
        taken-cons (notification n) sent s t.out.taken takes w,
        pushed n h,
      )
  serve_loop-Runs fuel [] end (receives ∷ ms) s ends takes =
      ([], s, end, refl, sym (append-nil s.out.taken), over)
  serve_loop-Runs fuel (line ∷ lines) end (receives ∷ ms) s ends takes =
      elim (dispatch_lem fuel line s ends) [
        | inl (e, d) ↦
            let v = response parse_failure in
            let (sent, t, o, r, w, h) =
              serve_loop-Runs fuel lines end ms (write_out N C v s) ends
                (Takes-write_out v s takes) in
            (
              v ∷ sent,
              t,
              o,
              ground (arith, d, r),
              taken-cons v sent s t.out.taken takes w,
              refused line e h,
            )
        | inr (env, e, inl (q, (resp, a, answers, d))) ↦
            let v = response resp in
            let (sent, t, o, r, w, h) =
              serve_loop-Runs fuel lines end ms (write_out N C v (record s { agg = a })) ends
                (Takes-write_out v (record s { agg = a }) takes) in
            (
              v ∷ sent,
              t,
              o,
              ground (arith, d, r),
              taken-cons v sent (record s { agg = a }) t.out.taken takes w,
              answered line env resp e q answers h,
            )
        | inr (env, e, inr (q, (a, d))) ↦
            let (sent, t, o, r, w, h) =
              serve_loop-Runs fuel lines end ms (record s { agg = a }) ends takes in
            (sent, t, o, ground (arith, d, r), w, unanswered line env e q h)
      ]

  -- Whatever the input is.
  pub serve_lem :
      (fuel : ℕ) (eof : Bool) (input : Bytes) (ms : List Move) (s : StdioServer N)
      → EndsWithin N fuel
      → Takes s.out
      → (lines : List Bytes) × (e : ReadError) × (read_lines input ≡ some (lines, e))
        × ((sent : List Outgoing) × (t : StdioServer N) × (o : Outcome) × (serve N C fuel eof input
                ms s
              ≡ some (t, o))
            × (t.out.taken ≡ s.out.taken ++ wire sent)
            × Transcript (outcome_of eof e) lines ms sent o)
  unfolding serve
  serve_lem fuel eof input ms s ends takes =
      let ((lines, e), q) = read_lines-total input in
      let (sent, t, o, r, w, h) =
        serve_loop-Runs fuel lines (outcome_of eof e) ms
          (record s { outbox = set_client_notifier s.outbox }) ends takes in
      (lines, e, q, (sent, t, o, ground (arith, q, r), w, h))

  -- If the upstreams' pages end, all that either side writes is taken, and each message that the
  -- client sends fits a line (it is not empty, holds no newline, does not end in a carriage return,
  -- and is below the limit of a line), then the session, however pushes and the shutdown fall between
  -- them, writes the messages of a transcript, in its order and each as one whole line: for each
  -- message received one parse error, or one answer under its id, or none if it is no request; and the
  -- notifications pushed. It ends well at the end of the input, and with the context's error if that
  -- is done before.
  pub serve-Transcript :
      (fuel : ℕ) (client : Sink) (messages : List Bytes) (ms : List Move) (s : StdioServer N)
      → EndsWithin N fuel
      → Takes client
      → client.taken ≡ []
      → All FitsLine messages
      → Takes s.out
      → (sent : List Outgoing) × (t : StdioServer N) × (o : Outcome) × (serve N C fuel true
            (write_all messages client).taken
            ms
            s
          ≡ some (t, o))
        × (t.out.taken ≡ s.out.taken ++ wire sent)
        × Transcript clean messages ms sent o
  serve-Transcript fuel client messages ms s ends client_takes empty fit takes =
      let (lines, e, q, (sent, t, o, r, w, h)) =
        serve_lem fuel true (write_all messages client).taken ms s ends takes in
      let found = read_lines-write_all messages client client_takes empty fit in
      let same_lines : lines ≡ messages = ground (arith, found, q) in
      let same_end : outcome_of true e ≡ clean = ground (arith, found, q) in
      (
        sent,
        t,
        o,
        r,
        w,
        subst (λ z. Transcript z messages ms sent o) same_end
            (subst (λ z. Transcript (outcome_of true e) z ms sent o) same_lines h),
      )
