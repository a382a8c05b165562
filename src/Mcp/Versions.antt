-- ===== src/Mcp/Versions.antt =====
-- The protocol versions of pkg/mcp/capabilities.go.
use garmx.Prelude.{Bool, List, [], ◌∷◌, any}
use garmx.Prelude.Bytes.{Bytes, text, equal}

abbrev pub protocol_version20241105 : Bytes
protocol_version20241105 = text "2024-11-05"

abbrev pub protocol_version20250326 : Bytes
protocol_version20250326 = text "2025-03-26"

abbrev pub protocol_version20250618 : Bytes
protocol_version20250618 = text "2025-06-18"

abbrev pub protocol_version20251125 : Bytes
protocol_version20251125 = text "2025-11-25"

abbrev pub preferred_protocol_version : Bytes
preferred_protocol_version = protocol_version20251125

abbrev pub known_protocol_versions : List Bytes
known_protocol_versions =
    protocol_version20241105 ∷ protocol_version20250326 ∷ protocol_version20250618
    ∷ protocol_version20251125 ∷ []

unfoldable pub is_known_protocol_version : Bytes → Bool
is_known_protocol_version v = any (equal v) known_protocol_versions
