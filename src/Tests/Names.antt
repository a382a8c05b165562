-- ===== src/Tests/Names.antt =====
-- Exposed names and profiles.
use garmx.Prelude.{◌≡◌, refl, Bool, true, false, Option, none, some, [], ◌∷◌, In, ◌⊎◌, ◌↔◌}
use garmx.Prelude.Bytes.{Bytes, text, equal, index, has_prefix}
use garmx.Aggregator.Naming.{matches_server_name, validate_server_name, split}
use garmx.Aggregator.Naming.Split.{split-prefix}
use garmx.Aggregator.Profile.{Profile, allows_tool, glob_match}
use garmx.Aggregator.Profile.Scope.{allows_tool_iff}

split-prefix_example :
    split (text "my-server___my___tool") ≡ some (text "my-server", text "my___tool")
unfolding validate_server_name matches_server_name
split-prefix_example = split-prefix (text "my-server") (text "my___tool") refl (λ e. cc)

-- The source's own table of names that do not split.
refused_names :
    (split (text "noserver") ≡ none)
    × (split (text "___tool") ≡ none)
    × (split (text "fs___") ≡ none)
    × (split (text "Bad___tool") ≡ none)
unfolding split index has_prefix validate_server_name matches_server_name
refused_names = (refl, refl, refl, refl)

abbrev exact : Bytes → Bytes → Option Bool
exact pattern_text name = some (equal pattern_text name)

abbrev narrow : Profile
narrow = record { servers = []; tool_allow = text "a___b" ∷ []; tool_deny = text "a___c" ∷ [] }

allows_tool_iff_example : (allows_tool exact narrow (text "a___b") ≡ true) ↔ (
    ((g : Bytes) → In g narrow.tool_deny → glob_match exact g (text "a___b") ≡ false)
    × ((narrow.tool_allow ≡ [])
        ⊎ ((g : Bytes) × In g narrow.tool_allow × (glob_match exact g (text "a___b") ≡ true))))
allows_tool_iff_example = allows_tool_iff exact narrow (text "a___b")
