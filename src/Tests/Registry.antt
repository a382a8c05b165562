-- ===== src/Tests/Registry.antt =====
-- Managers, pending requests and capabilities.
use garmx.Prelude.{ℕ, ◌≤◌, ◌≡◌, refl, true, some, List, [], ◌∷◌}
use garmx.Prelude.Utf8.{coerce}
use garmx.Prelude.Bytes.{Bytes, text}
use garmx.Prelude.Assoc.{bytes_eq, lookup, insert}
use garmx.Mcp.Capabilities.{ServerCapabilities}
use garmx.Upstream.Manager.{new_manager, get, add, start_all}
use garmx.Upstream.Manager.Names.{IsConsistent, new_manager-IsConsistent, add-IsConsistent}
use garmx.Upstream.Manager.Startup.{Outcome, start_all-Outcome}
use garmx.Upstream.Pending.{new_pending, Call, registers, resolves, run}
use garmx.Upstream.Pending.Once.{delivered, delivered_once}
use garmx.Aggregator.Capabilities.{no_capabilities, merge_server_capabilities}
use garmx.Aggregator.Capabilities.Merge.{union, merge-union}
use garmx.Tests.Bench.{wires, manager}

manager-IsConsistent : IsConsistent manager
unfolding add get lookup insert
manager-IsConsistent =
    add-IsConsistent wires (text "files") (text "wire") new_manager 0
      (new_manager-IsConsistent wires)

start_all-Outcome_example : Outcome wires manager manager.order 0 (start_all wires manager 0)
start_all-Outcome_example = start_all-Outcome wires manager 0 manager-IsConsistent

abbrev two_calls : List (Call Bytes ℕ)
two_calls = registers (text "2") ∷ resolves (text "2") 20 ∷ []

delivered_once_example : delivered 0 (run {K = Bytes} {R = ℕ} new_pending two_calls).sent ≤ 1
delivered_once_example = delivered_once two_calls 0

abbrev with_tools : ServerCapabilities
with_tools = record no_capabilities { tools = some (record { list_changed = true }) }

merge-union_example :
    merge_server_capabilities (with_tools ∷ no_capabilities ∷ [])
    ≡ union (with_tools ∷ no_capabilities ∷ [])
merge-union_example = merge-union (with_tools ∷ no_capabilities ∷ [])

-- A byte that begins no character is replaced, characters of two and three bytes are kept, and one
-- that is cut off is replaced byte by byte.
coerce_cases :
    coerce (255 ∷ 97 ∷ 195 ∷ 169 ∷ 226 ∷ 130 ∷ 172 ∷ 226 ∷ 130 ∷ [])
    ≡ 239 ∷ 191 ∷ 189 ∷ 97 ∷ 195 ∷ 169 ∷ 226 ∷ 130 ∷ 172 ∷ 239 ∷ 191 ∷ 189 ∷ 239 ∷ 191 ∷ 189 ∷ []
unfolding coerce
coerce_cases = refl
