-- ===== src/Tests/Sessions.antt =====
-- Whole requests, and the pages of a list.
use garmx.Prelude.{
  ℕ, ◌≤◌, ◌≡◌, ◌≢◌, refl, true, false, none, some, List, [], ◌∷◌, ◌++◌, In, inl, inr, ◌⊎◌, ◌↔◌,
  arith, Bool-cases, if_both, ◌+◌,
}
use garmx.Prelude.Bytes.{Bytes, text, equal}
use garmx.Prelude.Json.{
  Value, Items, str, arr, cons, nil, obj, Fields, field, end, json, find, insert, collect, to_map,
  assign_string,
}
use garmx.Mcp.Message.{Response}
use garmx.Mcp.Methods.{method_tools_list, method_resources_list, method_resources_read}
use garmx.Upstream.Transport.{result}
use garmx.Upstream.Manager.{get}
use garmx.Aggregator.Profile.{allows_server}
use garmx.Aggregator.Helpers.{items_list, list_params, decode_list, decode_string_struct}
use garmx.Aggregator.Event.{Event}
use garmx.Aggregator.Core.{Environment, Aggregator, page_of, drain}
use garmx.Aggregator.Handlers.{handle_resources_read, routed, is_call_method}
use garmx.Aggregator.Dispatch.{handle}
use garmx.Aggregator.Draining.{Serves, drain_iff, drain_forever}
use garmx.Aggregator.Calls.Forwarding.{Tells}
use garmx.Aggregator.Answers.{EndsWithin, Replies, handle-Replies}
use garmx.Aggregator.Auditing.{handle-audit}
use garmx.Aggregator.Ownership.Reads.{begins, answers, reads_in_scope}
use garmx.Tests.Bench.{wires, bench, everything, gateway, request, answer, read_tool, readme}

-- The answers of the small world have no cursor.
one_page :
    (key k : Bytes) (vs : Items)
    → equal (text "nextCursor") k ≡ false
    → (page : List Value) × (page_of key (result (json (obj (field k (arr vs) end))))
        ≡ some (page, []))
unfolding page_of decode_list to_map collect insert find
one_page key k vs h = elim (Bool-cases (equal key k)) [
  | inl e ↦ (items_list vs, ground arith)
  | inr e ↦ ([], ground arith)
]

answer-page :
    (method key : Bytes)
    → (page : List Value) × (page_of key (result (answer method)) ≡ some (page, []))
unfolding page_of decode_list to_map collect find equal
answer-page method key =
    if_both (λ r. (page : List Value) × (page_of key (result r) ≡ some (page, [])))
      (equal method method_tools_list) (one_page key (text "tools") (cons read_tool nil) refl)
      (if_both (λ r. (page : List Value) × (page_of key (result r) ≡ some (page, [])))
        (equal method method_resources_list)
        (one_page key (text "resources") (cons readme nil) refl) ([], refl))

pub bench-EndsWithin : EndsWithin bench 1
unfolding drain
bench-EndsWithin t method key w =
    let (page, e) = answer-page method key in ((some page, w + 1), ground (arith, e))

handle-Replies_example :
    Replies bench
      (request method_tools_list end)
      (handle bench 1 gateway (request method_tools_list end))
handle-Replies_example =
    handle-Replies bench 1 bench-EndsWithin gateway (request method_tools_list end)

drain_iff_example :
    (drain bench 3 (text "wire") method_tools_list (text "tools") [] [] 0
      ≡ some (some (read_tool ∷ []), 1))
    ↔ ((n : ℕ) × Serves bench
          (text "wire")
          method_tools_list
          (text "tools")
          []
          0
          (read_tool ∷ [])
          1
          n
        × (n ≤ 3))
drain_iff_example =
    drain_iff bench (text "wire") method_tools_list (text "tools") 3 [] (read_tool ∷ []) 0 1

-- Three requests are more than enough for it.
drains :
    drain bench 3 (text "wire") method_tools_list (text "tools") [] [] 0
    ≡ some (some (read_tool ∷ []), 1)
unfolding drain page_of decode_list to_map collect insert find equal list_params
drains = refl

-- The upstream that always has a next page.
abbrev endless : Environment
endless = record {
  transports = record wires {
    send = λ t method params w.
        (result (json (obj (field (text "nextCursor") (str (text "n")) end))), w + 1);
  };
  path_match = λ pattern_text name. none;
}

endless-page :
    (cursor : Bytes) (w : ℕ)
    → (page : List Value) × (next : Bytes) × (page_of
          (text "tools")
          (endless.send (text "wire") method_tools_list (list_params cursor) w).0
        ≡ some (page, next))
      × (next ≢ [])
unfolding page_of decode_list to_map collect insert find equal assign_string
endless-page cursor w = ([], text "n", refl, λ e. cc)

drain_forever_example :
    drain endless 1000 (text "wire") method_tools_list (text "tools") [] [] 0 ≡ none
drain_forever_example =
    drain_forever endless (text "wire") method_tools_list (text "tools") endless-page 1000 [] [] 0

handle-audit_example :
    (resp : Response) × (b : Aggregator bench) × (e : Event) × (handle bench 1 gateway
        (request method_resources_list end)
      ≡ some (resp, b))
    × (b.sink ≡ some ([] ++ (e ∷ [])))
    × (e.method ≡ method_resources_list)
    × (e.rpc_id ≡ (request method_resources_list end).id)
    × (e.request_params ≡ json (obj end))
    × Tells e resp
unfolding equal is_call_method
handle-audit_example =
    handle-audit bench 1 gateway (request method_resources_list end) [] bench-EndsWithin refl refl

-- After the resources were listed.
after_list :
    (resp : Response) × (b : Aggregator bench) × (handle bench 1 gateway
        (request method_resources_list end)
      ≡ some (resp, b))
after_list =
    let (resp, b, e, _) =
      handle-Replies bench 1 bench-EndsWithin gateway (request method_resources_list end) in
    (resp, b, e)

abbrev read_request : Fields
read_request = field (text "uri") (str (text "file:a")) end

reads_in_scope_example :
    let b = after_list.1 in
    ((handle_resources_read bench b (request method_resources_read read_request)).1 ≡ b)
    ⊎ ((uri : Bytes) × (server : Bytes) × (t : Bytes) × (decode_string_struct
            (text "uri")
            (json (obj read_request))
          ≡ some uri)
        × In (uri, server) b.uri_owners
        × (allows_server everything server ≡ true)
        × (get b.mgr server ≡ some t)
        × (handle_resources_read bench b (request method_resources_read read_request)
            ≡ routed bench b
                (request method_resources_read read_request)
                t
                method_resources_read
                (json (obj read_request))
                server
                []
                []))
reads_in_scope_example =
    reads_in_scope bench 1 gateway after_list.1 (request method_resources_read read_request) refl
      (answers (request method_resources_list end) after_list.0 begins after_list.2)
