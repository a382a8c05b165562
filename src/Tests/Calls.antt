-- ===== src/Tests/Calls.antt =====
-- Calls and lists through the aggregator.
use garmx.Prelude.{
  ℕ, List, inr, ◌≢◌, sym, subst, ok, false, ◌≡◌, refl, true, false, some, [], ◌∷◌, In, inl, ◌⊎◌,
  ◌>>=◌,
}
use garmx.Prelude.Bytes.{Bytes, text, equal}
use garmx.Prelude.Json.{
  Value, str, obj, Fields, json, end, find, insert, collect, to_map, string_at, assign_string,
}
use garmx.Prelude.Assoc.{lookup}
use garmx.Mcp.Methods.{method_tools_call, method_tools_list, method_prompts_get}
use garmx.Upstream.Manager.{get}
use garmx.Aggregator.Naming.{prefix, matches_server_name, validate_server_name}
use garmx.Aggregator.Profile.{allows_server, allows_tool}
use garmx.Aggregator.Helpers.{prefix_item_name}
use garmx.Aggregator.Core.{expose, Aggregator}
use garmx.Aggregator.Event.{Event}
use garmx.Aggregator.Handlers.{routed}
use garmx.Aggregator.Dispatch.{handle}
use garmx.Aggregator.Calls.{Refused, Routed}
use garmx.Aggregator.Calls.Requests.{call_cases}
use garmx.Aggregator.Calls.Forwarding.{Describes, carried, tools_call-forwards}
use garmx.Aggregator.Calls.Listed.{listed-callable, shown_in}
use garmx.Aggregator.Draining.{Serves}
use garmx.Aggregator.Profile.{allows_server}
use garmx.Upstream.Manager.{names}
use garmx.Upstream.Transport.{Reply}
use garmx.Mcp.Message.{Response, Envelope}
use garmx.Aggregator.Helpers.{list_response, has_cursor, decode_list}
use garmx.Aggregator.Dispatch.{dispatch}
use garmx.Aggregator.Handlers.{handle_prefixed_list}
use garmx.Aggregator.Core.{prefixed_from, drain, servers, add_prefixed, page_of, after_page}
use garmx.Tests.Bench.{bench, gateway, manager, request, named}

abbrev exposed_name : Bytes
exposed_name = text "files___read"

abbrev shown : Fields
shown = named exposed_name

abbrev reply : Reply × ℕ
reply =
    bench.send (text "wire") method_tools_call
      (json (obj (insert (text "name") (str (text "read")) shown))) 0

abbrev answered : Response
answered = carried (request method_tools_call shown).id method_tools_call reply.0

tools_call-forwards_example :
    (e : Event) × (handle bench 0 gateway (request method_tools_call shown)
      ≡ some (answered, record gateway { world = 1; sink = some (e ∷ []) }))
    × Describes e
        (text "s")
        gateway.session.client_info
        (request method_tools_call shown)
        method_tools_call
        (text "files")
        exposed_name
        (text "read")
        answered
        1
unfolding to_map collect insert string_at assign_string find equal validate_server_name
    matches_server_name allows_server allows_tool get lookup
tools_call-forwards_example =
    tools_call-forwards bench 0 gateway (request method_tools_call shown) shown (text "files")
      (text "read") (text "wire") [] refl refl refl refl (λ e. cc) refl refl refl refl

call_cases_example :
    (r : Response × Aggregator bench) × (handle bench 0 gateway (request method_prompts_get shown)
      ≡ some r)
    × (Refused bench gateway (request method_prompts_get shown) r
        ⊎ (((method_prompts_get ≡ method_tools_call)
              × Routed bench gateway (request method_prompts_get shown) method_tools_call true r)
            ⊎ ((method_prompts_get ≡ method_prompts_get)
                × Routed bench gateway
                    (request method_prompts_get shown)
                    method_prompts_get
                    false
                    r)))
call_cases_example = call_cases bench 0 gateway (request method_prompts_get shown) (inr refl)

abbrev listing : Envelope
listing = request method_tools_list end

abbrev listing_shown : Response
listing_shown = list_response listing.id (text "tools") (obj shown ∷ [])

-- No audit of lists.
abbrev quiet : Aggregator bench
quiet = record gateway { audit_all = false }

listed : handle bench 1 quiet listing ≡ some (listing_shown, record quiet { world = 1 })
unfolding handle dispatch handle_prefixed_list prefixed_from drain servers add_prefixed page_of
    after_page equal allows_server get lookup to_map collect insert find expose prefix_item_name
    string_at assign_string allows_tool has_cursor decode_list
listed = refl

shown_there : In (obj shown) (shown_in listing_shown)
unfolding list_response
shown_there = inl refl

valid_names : (n : Bytes) → In n (names manager) → validate_server_name n ≡ ok tt
unfolding validate_server_name matches_server_name
valid_names n (inl e) = subst (λ m. validate_server_name m ≡ ok tt) (sym e) refl
valid_names n (inr e) = absurd e

read_named :
    (n : Bytes) → In n (names manager) → find (text "name") shown ≢ some (str (prefix n []))
unfolding find equal
read_named n (inl e) =
    subst (λ m. find (text "name") shown ≢ some (str (prefix m []))) (sym e) (λ q. cc)
read_named n (inr e) = absurd e

listed-callable_example :
    let b = record quiet { world = 1 } in
    (server original t : Bytes) × (item : Value) × (before after : ℕ) × (items : List Value)
    × (pages : ℕ) × In server (names manager)
    × (allows_server b.profile server ≡ true)
    × (get b.mgr server ≡ some t)
    × Serves bench t method_tools_list (text "tools") [] before items after pages
    × In item items
    × (to_map (json item) >>= string_at (text "name") ≡ some original)
    × (handle bench 0 b (request method_tools_call shown)
        ≡ some (
            routed bench b
              (request method_tools_call shown)
              t
              method_tools_call
              (json (obj (insert (text "name") (str original) shown)))
              server
              (prefix server original)
              original))
unfolding to_map collect insert
listed-callable_example =
    listed-callable bench 1 0 quiet (record quiet { world = 1 }) listing
      (request method_tools_call shown) listing_shown shown shown valid_names refl listed
      shown_there read_named refl refl refl
