-- ===== src/Aggregator/Capabilities.antt =====
-- internal/aggregator/capabilities.go: version negotiation and the union of capabilities.
pub mod Merge
use garmx.Prelude.{Bool, false, not, ◌||◌, Option, none, some, List, [], ◌∷◌, any, if◌then◌else◌}
use garmx.Prelude.Bytes.{Bytes, equal}
use garmx.Mcp.Versions.{
  protocol_version20251125, protocol_version20250618, preferred_protocol_version,
  is_known_protocol_version,
}
use garmx.Mcp.Capabilities.{
  ToolsCapability, PromptsCapability, ResourcesCapability, LoggingCapability, CompletionsCapability,
  ServerCapabilities, logging, completions,
}

abbrev pub supported_client_versions : List Bytes
supported_client_versions = protocol_version20251125 ∷ protocol_version20250618 ∷ []

unfoldable pub negotiate_client_version : Bytes → Bytes
negotiate_client_version requested =
    if any (equal requested) supported_client_versions
    then requested
    else preferred_protocol_version

-- The accepted version, and whether it is a mismatch.
unfoldable pub negotiate_upstream_version : Bytes → Bytes × Bool
negotiate_upstream_version reported = (reported, not (is_known_protocol_version reported))

abbrev merge_tools : Option ToolsCapability → Option ToolsCapability → Option ToolsCapability
merge_tools merged none = merged
merge_tools none (some u) = some (record { list_changed = false || u.list_changed })
merge_tools (some m) (some u) = some (record { list_changed = m.list_changed || u.list_changed })

abbrev merge_prompts :
    Option PromptsCapability → Option PromptsCapability → Option PromptsCapability
merge_prompts merged none = merged
merge_prompts none (some u) = some (record { list_changed = false || u.list_changed })
merge_prompts (some m) (some u) = some (record { list_changed = m.list_changed || u.list_changed })

abbrev merge_resources :
    Option ResourcesCapability → Option ResourcesCapability → Option ResourcesCapability
merge_resources merged none = merged
merge_resources none (some u) =
    some (record { subscribe = false || u.subscribe; list_changed = false || u.list_changed })
merge_resources (some m) (some u) = some (record {
  subscribe = m.subscribe || u.subscribe;
  list_changed = m.list_changed || u.list_changed;
})

abbrev merge_logging :
    Option LoggingCapability → Option LoggingCapability → Option LoggingCapability
merge_logging none (some u) = some logging
merge_logging merged u = merged

abbrev merge_completions :
    Option CompletionsCapability → Option CompletionsCapability → Option CompletionsCapability
merge_completions none (some u) = some completions
merge_completions merged u = merged

abbrev pub no_capabilities : ServerCapabilities
no_capabilities = record {
  tools = none;
  prompts = none;
  resources = none;
  logging = none;
  completions = none;
}

-- One round of the loop.
merge_one : ServerCapabilities → ServerCapabilities → ServerCapabilities
merge_one merged u = record {
  tools = merge_tools merged.tools u.tools;
  prompts = merge_prompts merged.prompts u.prompts;
  resources = merge_resources merged.resources u.resources;
  logging = merge_logging merged.logging u.logging;
  completions = merge_completions merged.completions u.completions;
}

merge_from : ServerCapabilities → List ServerCapabilities → ServerCapabilities
merge_from merged [] = merged
merge_from merged (u ∷ us) = merge_from (merge_one merged u) us

unfoldable pub merge_server_capabilities : List ServerCapabilities → ServerCapabilities
unfolding merge_from merge_one
merge_server_capabilities us = merge_from no_capabilities us
