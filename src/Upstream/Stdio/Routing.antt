-- ===== src/Upstream/Stdio/Routing.antt =====
-- A caller of `Send` gets the response to its own request.
use garmx.Prelude.{
  ◌+◌, ◌≡◌, ◌≢◌, refl, ◌∙◌, Bool, true, false, none, some, List, [], ◌∷◌, ◌++◌, All, arith, ◌⊎◌,
  inl, inr,
}
use garmx.Prelude.Bytes.{Bytes}
use garmx.Prelude.Json.{Raw}
use garmx.Prelude.Assoc.{bytes_eq, lookup, lookup-insert_self, lookup-delete}
use garmx.Prelude.Bytes.{equal_iff}
use garmx.Mcp.Message.{Response, Envelope, parse, is_response}
use garmx.Upstream.Pending.{Pending, register, resolve}
use garmx.Upstream.Stdio.{Texts, StdioTransport, begin_send, dispatch_line}

module _ (T : Texts) where
  -- The lines of the child, one after the other.
  abbrev pub dispatch_all : List (Bool × Raw) → StdioTransport → StdioTransport
  dispatch_all [] t = t
  dispatch_all (l ∷ ls) t = dispatch_all ls (dispatch_line T l.0 l.1 t)

  -- The line is no message, or one with another id.
  abbrev pub Elsewhere : Bytes → Raw → Type 0
  Elsewhere id line =
      (parse line ≡ none) ⊎ ((env : Envelope) × (parse line ≡ some env) × (T.raw_text env.id ≢ id))

  -- The waiters of another id.
  resolve-waiters :
      (j id : Bytes) (r : Response) (p : Pending Bytes Response)
      → j ≢ id
      → lookup id (resolve j r p).1.waiters ≡ lookup id p.waiters
  unfolding resolve
  resolve-waiters j id r p h = ground (arith, lookup-delete j id p.waiters, equal_iff j id)

  dispatch_line-waiters :
      (id : Bytes) (writes : Bool) (line : Raw) (t : StdioTransport)
      → Elsewhere id line
      → lookup id (dispatch_line T writes line t).pend.waiters ≡ lookup id t.pend.waiters
  unfolding dispatch_line
  dispatch_line-waiters id writes line t (inl e) = ground (arith, e)
  dispatch_line-waiters id writes line t (inr (env, e, d)) = ground (
    arith,
    e,
    resolve-waiters (T.raw_text env.id) id
        (record { jsonrpc = env.jsonrpc; id = env.id; result = env.result; error = env.error })
        t.pend d,
  )

  dispatch_all-waiters :
      (id : Bytes) (ls : List (Bool × Raw)) (t : StdioTransport)
      → All (λ l. Elsewhere id l.1) ls
      → lookup id (dispatch_all ls t).pend.waiters ≡ lookup id t.pend.waiters
  dispatch_all-waiters id [] t h = refl
  dispatch_all-waiters id (l ∷ ls) t h =
      dispatch_all-waiters id ls (dispatch_line T l.0 l.1 t) h.1
      ∙ dispatch_line-waiters id l.0 l.1 t h.0

  -- A request that could be written on a transport that is up waits on a fresh channel; and after any
  -- lines that are no message under its id, the first response under its id is what this channel
  -- gets, and nothing else is put into any channel by that line.
  pub send-dispatch :
      (method : Bytes) (params : Raw) (t : StdioTransport) (ls : List (Bool × Raw)) (writes : Bool)
      (line : Raw) (env : Envelope)
      → t.pend.closed ≡ false
      → All (λ l. Elsewhere (T.decimal (t.next_id + 1)) l.1) ls
      → parse line ≡ some env
      → is_response env ≡ true
      → T.raw_text env.id ≡ T.decimal (t.next_id + 1)
      → let sent = begin_send T true method params t in
        let before = dispatch_all ls sent.1 in
        (sent.0 ≡ some t.pend.fresh)
        × ((dispatch_line T writes line before).pend.sent
            ≡ before.pend.sent
              ++ ((
                t.pend.fresh,
                record {
                  jsonrpc = env.jsonrpc;
                  id = env.id;
                  result = env.result;
                  error = env.error;
                },
              )
                  ∷ []))
  unfolding begin_send dispatch_line register resolve
  send-dispatch method params t ls writes line env open_map elsewhere p r i =
      let id = T.decimal (t.next_id + 1) in
      let sent = begin_send T true method params t in
      let before = dispatch_all ls sent.1 in
      let waits : lookup id before.pend.waiters ≡ some t.pend.fresh =
        dispatch_all-waiters id ls sent.1 elsewhere
        ∙ ground (arith, open_map, lookup-insert_self id t.pend.fresh t.pend.waiters) in
      (ground (arith, open_map), ground (arith, p, r, i, waits))
