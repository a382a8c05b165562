-- ===== src/Upstream/Stdio/Reading.antt =====
-- `readLoop` of internal/upstream/stdio.go: the end of a child's output ends all waiting. Decoding a
-- line is a parameter, and so is whether an answer to it can be written.
use mathlib.Core.Bool.{false≢true}
use garmx.Prelude.{
  ℕ, zero, suc, ◌+◌, ◌<◌, ◌≡◌, refl, sym, ap, ◌∙◌, subst, Bool, true, false, Option, none, some,
  List, [], ◌∷◌, ◌++◌, map, length, is_nil, In, In-append_left, In-append_right, if◌then◌else◌,
  arith, ◌⊎◌, inl, inr, Bool-cases, Option-cases, if_both, option_both, if_cases,
}
use garmx.Prelude.Bytes.{Bytes, text, equal, equal_iff}
use garmx.Prelude.Json.{Raw, absent}
use garmx.Prelude.Assoc.{bytes_eq, lookup, delete, lookup-delete, lookup-In}
use garmx.Mcp.Message.{
  Response, parse, is_response, is_notification, is_request, jsonrpc_version, new_error,
  code_internal_error,
}
use garmx.Mcp.Frame.{read_message}
use garmx.Mcp.Frame.Lines.{without_return, first_line-length, read_message_lem}
use garmx.Upstream.Transport.{offline}
use garmx.Upstream.Pending.{Pending, resolve, close_all}
use garmx.Upstream.Stdio.{Texts, StdioTransport, dispatch_line, mark_down}

abbrev pub reader_size : ℕ
reader_size = 65536

pub record Child : Type 0 where
  pub decode : Bytes → Raw
  pub writes : Bytes → Bool

-- What `mark_down` gives to those who wait.
abbrev pub stopped : Response
stopped = record {
  jsonrpc = jsonrpc_version;
  id = absent;
  result = absent;
  error = some (new_error code_internal_error (text "upstream stopped"));
}

module _ (T : Texts) (C : Child) where
  unfoldable pub read_line : Bytes → StdioTransport → StdioTransport
  read_line line t = if is_nil line then t else dispatch_line T (C.writes line) (C.decode line) t

  unfoldable pub read_child : ℕ → Bytes → StdioTransport → Option StdioTransport
  unfolding read_line
  read_child zero output t = none
  read_child (suc fuel) output t = elim (read_message reader_size output) [
    | none ↦ none
    | some (r, rest) ↦ elim r.error [
      | some e ↦ some (mark_down (read_line r.message t))
      | none ↦ read_child fuel rest (read_line r.message t)
    ]
  ]

  -- `readLoop`, where `output` is all that the child writes. Every message but the last has a newline.
  unfoldable pub read_loop : Bytes → StdioTransport → Option StdioTransport
  unfolding read_child
  read_loop output t = read_child (length output + 1) output t

  -- Something was put into the channel.
  abbrev pub Answered : ℕ → StdioTransport → Type 0
  Answered ch t = (r : Response) × In (ch, r) t.pend.sent

  abbrev pub Waits : Bytes → ℕ → StdioTransport → Type 0
  Waits k ch t = lookup k t.pend.waiters ≡ some ch

  abbrev Kept : Bytes → ℕ → Pending Bytes Response → Type 0
  Kept k ch p = (lookup k p.waiters ≡ some ch) ⊎ ((r : Response) × In (ch, r) p.sent)

  -- Still up, and each channel that was waited on or answered still is.
  record Continues (t u : StdioTransport) : Type 0 where
    up : u.down ≡ false
    keeps : (k : Bytes) (ch : ℕ) → Kept k ch t.pend → Kept k ch u.pend

  delivered-Kept :
      (id : Bytes) (resp : Response) (c : ℕ) (k : Bytes) (ch : ℕ) (p : Pending Bytes Response)
      → lookup id p.waiters ≡ some c
      → Kept k ch p
      → Kept k ch (record p { waiters = delete id p.waiters; sent = p.sent ++ ((c, resp) ∷ []) })
  delivered-Kept id resp c k ch p e (inr (r, m)) =
      inr (r, In-append_left (ch, r) p.sent ((c, resp) ∷ []) m)
  delivered-Kept id resp c k ch p e (inl w) = elim (Bool-cases (equal id k)) [
    | inl same ↦
        let here : (ch, resp) ≡ (c, resp) = ground (arith, e, w, equal_iff id k) in
        inr (resp, In-append_right (ch, resp) p.sent ((c, resp) ∷ []) (inl here))
    | inr differ ↦ inl (ground (arith, lookup-delete id k p.waiters, differ, w))
  ]

  resolve-Kept :
      (id : Bytes) (resp : Response) (k : Bytes) (ch : ℕ) (p : Pending Bytes Response)
      → Kept k ch p
      → Kept k ch (resolve id resp p).1
  unfolding resolve
  resolve-Kept id resp k ch p h = elim (Option-cases (lookup id p.waiters)) [
    | inl e ↦ let q : (resolve id resp p).1 ≡ p = ground (arith, e) in subst (Kept k ch) (sym q) h
    | inr (c, e) ↦
        let q : (resolve id resp p).1
            ≡ record p { waiters = delete id p.waiters; sent = p.sent ++ ((c, resp) ∷ []) } =
          ground (arith, e) in
        subst (Kept k ch) (sym q) (delivered-Kept id resp c k ch p e h)
  ]

  unchanged :
      (t u : StdioTransport) → t.down ≡ false → u.down ≡ t.down → u.pend ≡ t.pend → Continues t u
  unchanged t u up d p = record { up = d ∙ up; keeps = λ k ch h. subst (Kept k ch) (sym p) h }

  dispatch_line-Continues :
      (writes : Bool) (line : Raw) (t : StdioTransport)
      → t.down ≡ false
      → Continues t (dispatch_line T writes line t)
  unfolding dispatch_line
  dispatch_line-Continues writes line t up =
      let stays : Continues t t = unchanged t t up refl refl in
      option_both (Continues t) (parse line) stays (λ env.
        if_both (Continues t) (is_response env)
          (record { up = up; keeps = λ k ch h. resolve-Kept (T.raw_text env.id) _ k ch t.pend h })
          (if_both (Continues t) (is_notification env)
            (if_both (Continues t) t.handled (unchanged t _ up refl refl) stays)
            (if_both (Continues t) (is_request env)
              (if_both (Continues t) writes (unchanged t _ up refl refl) stays) stays)))

  read_line-Continues :
      (line : Bytes) (t : StdioTransport) → t.down ≡ false → Continues t (read_line line t)
  unfolding read_line
  read_line-Continues line t up =
      if_both (Continues t) (is_nil line) (unchanged t t up refl refl)
        (dispatch_line-Continues (C.writes line) (C.decode line) t up)

  -- The transport is down, and nobody waits or can wait any more.
  pub record Settled (t : StdioTransport) : Type 0 where
    pub down : t.down ≡ true
    pub status : t.status ≡ offline
    pub no_waiters : t.pend.waiters ≡ []
    pub closed : t.pend.closed ≡ true

  -- Each channel that is waited on or answered in the one state is answered in the other.
  abbrev AllAnswered : StdioTransport → StdioTransport → Type 0
  AllAnswered t u = (k : Bytes) (ch : ℕ) → Kept k ch t.pend → Answered ch u

  In-closed :
      (answer : Response) (k : Bytes) (ch : ℕ) (ws : List (Bytes × ℕ))
      → In {A = Bytes × ℕ} (k, ch) ws
      → In {A = ℕ × Response} (ch, answer) (map (λ w. (w.1, answer)) ws)
  In-closed answer k ch [] m = absurd m
  In-closed answer k ch (w ∷ ws) (inl e) = inl (ap (λ z. (z.1, answer)) e)
  In-closed answer k ch (w ∷ ws) (inr m) = inr (In-closed answer k ch ws m)

  mark_down-Settled : (t : StdioTransport) → t.down ≡ false → Settled (mark_down t)
  unfolding mark_down close_all
  mark_down-Settled t up =
      if_cases Settled t.down (λ d. absurd (false≢true (sym up ∙ d)))
        (λ d. record { down = refl; status = refl; no_waiters = refl; closed = refl })

  mark_down-AllAnswered : (t : StdioTransport) → t.down ≡ false → AllAnswered t (mark_down t)
  unfolding mark_down close_all
  mark_down-AllAnswered t up k ch h =
      if_cases (Answered ch) t.down (λ d. absurd (false≢true (sym up ∙ d))) (λ d. answered h)
    where
      answered :
          Kept k ch t.pend
          → (r : Response) × In {A = ℕ × Response}
              (ch, r)
              (t.pend.sent ++ map (λ w. (w.1, stopped)) t.pend.waiters)
      answered (inl w) = (
        stopped,
        In-append_right {A = ℕ × Response} (ch, stopped) t.pend.sent
            (map (λ w. (w.1, stopped)) t.pend.waiters)
            (In-closed stopped k ch t.pend.waiters (lookup-In k t.pend.waiters ch w)),
      )
      answered (inr (r, m)) = (
        r,
        In-append_left {A = ℕ × Response} (ch, r) t.pend.sent
            (map (λ w. (w.1, stopped)) t.pend.waiters) m,
      )

  -- The last line of the output, and the end.
  last_line-Settled :
      (line : Bytes) (t : StdioTransport)
      → t.down ≡ false
      → Settled (mark_down (read_line line t)) × AllAnswered t (mark_down (read_line line t))
  last_line-Settled line t up =
      let c = read_line-Continues line t up in
      (
        mark_down-Settled (read_line line t) c.up,
        λ k ch h. mark_down-AllAnswered (read_line line t) c.up k ch (c.keeps k ch h),
      )

  read_child-Settled :
      (fuel : ℕ) (output : Bytes) (t : StdioTransport)
      → length output < fuel
      → t.down ≡ false
      → (u : StdioTransport) × (read_child fuel output t ≡ some u) × Settled u × AllAnswered t u
  unfolding read_child
  read_child-Settled zero output t enough up = absurd (omega (arith, enough))
  read_child-Settled (suc fuel) output t enough up =
      elim (read_message_lem reader_size output (omega arith)) [
        | inl (line, rest, f, short, e) ↦
            let c = read_line-Continues (without_return line) t up in
            let (u, q, s, answered) =
              read_child-Settled fuel rest (read_line (without_return line) t)
                (omega (arith, enough, first_line-length output line rest f)) c.up in
            (u, ground (arith, e, q), s, λ k ch h. answered k ch (c.keeps k ch h))
        | inr (inl (f, short, e)) ↦ (
          mark_down (read_line output t),
          ground (arith, e),
          (last_line-Settled output t up).0,
          (last_line-Settled output t up).1,
        )
        | inr (inr (too_long, (rest, e))) ↦ (
          mark_down (read_line [] t),
          ground (arith, e),
          (last_line-Settled [] t up).0,
          (last_line-Settled [] t up).1,
        )
      ]

  -- Whatever a child writes to a transport that is up, at the end of its output the loop returns and
  -- the transport is down: every request that waited for its response has got one, nobody waits any
  -- more, and no request is taken from then on.
  pub read_loop-Settled :
      (output : Bytes) (t : StdioTransport)
      → t.down ≡ false
      → (u : StdioTransport) × (read_loop output t ≡ some u)
        × Settled u
        × ((k : Bytes)
            → (lookup k t.pend.waiters ≡ none) ⊎ ((ch : ℕ) × Waits k ch t × Answered ch u))
  unfolding read_loop
  read_loop-Settled output t up =
      let (u, q, s, answered) = read_child-Settled (length output + 1) output t (omega arith) up in
      (
        u,
        q,
        s,
        λ k. elim (Option-cases (lookup k t.pend.waiters)) [
          | inl e ↦ inl e
          | inr (ch, e) ↦ inr (ch, e, answered k ch (inl e))
        ],
      )
