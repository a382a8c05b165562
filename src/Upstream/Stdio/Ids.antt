-- ===== src/Upstream/Stdio/Ids.antt =====
-- The ids of the requests that wait are all different.
use garmx.Prelude.{
  ℕ, ◌+◌, ◌≤◌, ◌≡◌, ◌≢◌, ap, ◌∙◌, subst, Bool, some, List, In, arith, inl, inr, Bool-cases, if_both,
  option_both,
}
use garmx.Prelude.Bytes.{Bytes, equal_iff}
use garmx.Prelude.Json.{Raw}
use garmx.Prelude.Assoc.{
  bytes_eq, lookup, insert, delete, lookup-insert, lookup-delete, lookup-In, In-insert, In-delete,
}
use garmx.Mcp.Message.{Response, parse, is_response, is_notification, is_request}
use garmx.Upstream.Pending.{Pending, new_pending, register, resolve, cancel, close_all}
use garmx.Upstream.Stdio.{
  Texts, StdioTransport, new_stdio_transport, notify, begin_send, dispatch_line, mark_down,
}

module _ (T : Texts) where
  -- The states of a transport: requests and notifications are sent, lines are read, a caller gives up waiting, and the
  -- transport goes down.
  pub data Reached : StdioTransport → Type 0 where
    begins : Reached new_stdio_transport
    sends :
        {t : StdioTransport} (writes : Bool) (method : Bytes) (params : Raw)
        → Reached t
        → Reached (begin_send T writes method params t).1
    reads :
        {t : StdioTransport} (writes : Bool) (line : Raw)
        → Reached t
        → Reached (dispatch_line T writes line t)
    notes :
        {t : StdioTransport} (writes : Bool) (method : Bytes) (params : Raw)
        → Reached t
        → Reached (notify writes method params t).1
    gives_up :
        {t : StdioTransport} (id : Bytes)
        → Reached t
        → Reached (record t { pend = cancel id t.pend })
    goes_down : {t : StdioTransport} → Reached t → Reached (mark_down t)

  -- Every waiter's id was given out: it is the text of a number up to the last one used.
  abbrev Issued : ℕ → List (Bytes × ℕ) → Type 0
  Issued n ws = (k : Bytes) (c : ℕ) → In (k, c) ws → (i : ℕ) × (k ≡ T.decimal i) × (i ≤ n)

  Issued-insert :
      (n : ℕ) (c : ℕ) (ws : List (Bytes × ℕ))
      → Issued n ws
      → Issued (n + 1) (insert (T.decimal (n + 1)) c ws)
  Issued-insert n c ws h k d m = elim (In-insert (T.decimal (n + 1)) c ws (k, d) m) [
    | inl e ↦ (n + 1, ap (λ x. x.0) e, omega arith)
    | inr i ↦ let (j, e, l) = h k d i in (j, e, omega (arith, l))
  ]

  Issued-more : (n : ℕ) (ws : List (Bytes × ℕ)) → Issued n ws → Issued (n + 1) ws
  Issued-more n ws h k d m = let (j, e, l) = h k d m in (j, e, omega (arith, l))

  Issued-delete :
      (n : ℕ) (id : Bytes) (ws : List (Bytes × ℕ)) → Issued n ws → Issued n (delete id ws)
  Issued-delete n id ws h k d m = h k d (In-delete id ws (k, d) m)

  abbrev Fine : StdioTransport → Type 0
  Fine t = Issued t.next_id t.pend.waiters

  Fine-at :
      (u : StdioTransport) (n : ℕ) (ws : List (Bytes × ℕ))
      → u.pend.waiters ≡ ws
      → u.next_id ≡ n
      → Issued n ws
      → Fine u
  Fine-at u n ws e f h k d m =
      let (j, q, l) = h k d (subst (In (k, d)) e m) in (j, q, omega (arith, l, f))

  begin_send-Fine :
      (writes : Bool) (method : Bytes) (params : Raw) (t : StdioTransport)
      → Fine t
      → Fine (begin_send T writes method params t).1
  unfolding begin_send register cancel
  begin_send-Fine writes method params t h =
      let u = (begin_send T writes method params t).1 in
      let n = t.next_id + 1 in
      let added = insert (T.decimal n) t.pend.fresh t.pend.waiters in
      let more = Issued-insert t.next_id t.pend.fresh t.pend.waiters h in
      elim (Bool-cases t.pend.closed) [
        | inl c ↦
            Fine-at u n t.pend.waiters (ground (arith, c)) (ground (arith, c))
              (Issued-more t.next_id t.pend.waiters h)
        | inr o ↦ elim (Bool-cases writes) [
          | inl y ↦ Fine-at u n added (ground (arith, o, y)) (ground (arith, o, y)) more
          | inr y ↦
              Fine-at u n (delete (T.decimal n) added) (ground (arith, o, y)) (ground (arith, o, y))
                (Issued-delete n (T.decimal n) added more)
        ]
      ]

  resolve-Fine :
      (n : ℕ) (id : Bytes) (r : Response) (p : Pending Bytes Response)
      → Issued n p.waiters
      → Issued n (resolve id r p).1.waiters
  unfolding resolve
  resolve-Fine n id r p h =
      option_both {B = Bool × Pending Bytes Response} (λ x. Issued n x.1.waiters)
        (lookup id p.waiters) h (λ c. Issued-delete n id p.waiters h)

  dispatch_line-Fine :
      (writes : Bool) (line : Raw) (t : StdioTransport)
      → Fine t
      → Fine (dispatch_line T writes line t)
  unfolding dispatch_line
  dispatch_line-Fine writes line t h = option_both Fine (parse line) h (λ env.
      if_both Fine (is_response env)
        (resolve-Fine t.next_id (T.raw_text env.id)
          (record { jsonrpc = env.jsonrpc; id = env.id; result = env.result; error = env.error })
          t.pend h)
        (if_both Fine (is_notification env) (if_both Fine t.handled h h)
          (if_both Fine (is_request env) (if_both Fine writes h h) h)))

  Reached-Fine : {t : StdioTransport} → Reached t → Fine t
  unfolding notify mark_down close_all cancel new_stdio_transport new_pending
  Reached-Fine begins = λ k c m. absurd m
  Reached-Fine (sends {t} writes method params r) =
      begin_send-Fine writes method params t (Reached-Fine r)
  Reached-Fine (reads {t} writes line r) = dispatch_line-Fine writes line t (Reached-Fine r)
  Reached-Fine (notes {t} writes method params r) =
      if_both Fine writes (Reached-Fine r) (Reached-Fine r)
  Reached-Fine (gives_up {t} id r) = Issued-delete t.next_id id t.pend.waiters (Reached-Fine r)
  Reached-Fine (goes_down {t} r) = if_both Fine t.down (Reached-Fine r) (λ k c m. absurd m)

  -- If different numbers are written differently, then in every state of a transport the id of the
  -- next request is one that no request waits under; so sending it, whether or not it can be written,
  -- leaves every caller that waits on the channel it waits on.
  pub send-keeps_waiters :
      ((m n : ℕ) → T.decimal m ≡ T.decimal n → m ≡ n)
      → (t : StdioTransport) → Reached t
      → (writes : Bool) (method : Bytes) (params : Raw) (k : Bytes) (c : ℕ)
      → lookup k t.pend.waiters ≡ some c
      → lookup k (begin_send T writes method params t).1.pend.waiters ≡ some c
  unfolding begin_send register cancel
  send-keeps_waiters inj t r writes method params k c w =
      let id = T.decimal (t.next_id + 1) in
      let other : id ≢ k = λ e.
        let (i, q, l) = Reached-Fine r k c (lookup-In k t.pend.waiters c w) in
        let same : t.next_id + 1 ≡ i = inj (t.next_id + 1) i (e ∙ q) in omega (arith, l, same) in
      ground (
        arith,
        w,
        lookup-insert id k t.pend.fresh t.pend.waiters,
        lookup-delete id k (insert id t.pend.fresh t.pend.waiters),
        equal_iff id k,
        other,
      )
