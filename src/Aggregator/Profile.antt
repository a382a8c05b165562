-- ===== src/Aggregator/Profile.antt =====
-- internal/aggregator/profile.go. `filepath.Match` is the parameter `path_match`: the result of a
-- pattern at a name, `none` for a malformed pattern.
pub mod Scope
use garmx.Prelude.{Bool, true, false, not, Option, none, some, List, any, is_nil, if◌then◌else◌}
use garmx.Prelude.Bytes.{Bytes, equal}

pub record Profile : Type 0 where
  pub servers : List Bytes
  pub tool_allow : List Bytes
  pub tool_deny : List Bytes

unfoldable pub allows_server : Profile → Bytes → Bool
allows_server p server = if is_nil p.servers then true else any (λ s. equal s server) p.servers

module _ (path_match : Bytes → Bytes → Option Bool) where
  unfoldable pub glob_match : Bytes → Bytes → Bool
  glob_match pattern_text name = elim (path_match pattern_text name) [
    | none ↦ false
    | some hit ↦ hit
  ]

  unfoldable pub allows_tool : Profile → Bytes → Bool
  allows_tool p exposed =
      if any (λ g. glob_match g exposed) p.tool_deny
      then false
      else if is_nil p.tool_allow
      then true
      else any (λ g. glob_match g exposed) p.tool_allow
