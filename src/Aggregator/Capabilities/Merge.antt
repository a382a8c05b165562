-- ===== src/Aggregator/Capabilities/Merge.antt =====
-- The merge is a union: it forgets the order and the grouping of the upstreams.
use garmx.Prelude.{
  ◌≡◌, refl, sym, ap, ◌∙◌, Bool, false, ◌||◌, Option, none, some, List, [], ◌∷◌, ◌++◌, arith, any,
  is_some, if◌then◌else◌,
}
use garmx.Mcp.Capabilities.{
  ToolsCapability, PromptsCapability, ResourcesCapability, ServerCapabilities, logging, completions,
}
use garmx.Aggregator.Capabilities.{
  no_capabilities, merge_one, merge_from, merge_server_capabilities, merge_tools, merge_prompts,
  merge_resources, merge_logging, merge_completions,
}

abbrev flag_of : {A : Type 0} → (A → Bool) → Option A → Bool
flag_of flag none = false
flag_of flag (some a) = flag a

flag_any_false_step :
    {A : Type 0} (flag : A → Bool) (o : Option A) (h f : Bool)
    → (is_some o || h) ≡ false
    → (h ≡ false → f ≡ false)
    → (flag_of flag o || f) ≡ false
flag_any_false_step flag o h f e k = ground (arith, k)

module _ {A : Type 0} (present : ServerCapabilities → Option A) where
  -- Some upstream has the capability.
  abbrev has_any : List ServerCapabilities → Bool
  has_any us = any (λ u. is_some (present u)) us

  -- Some upstream has it with this flag.
  abbrev flag_any : (A → Bool) → List ServerCapabilities → Bool
  flag_any flag us = any (λ u. flag_of flag (present u)) us

  flag_any-false :
      (flag : A → Bool) (us : List ServerCapabilities)
      → has_any us ≡ false
      → flag_any flag us ≡ false
  flag_any-false flag [] h = refl
  flag_any-false flag (u ∷ us) h =
      flag_any_false_step flag (present u) (has_any us) (flag_any flag us) h
        (flag_any-false flag us)

-- The union of the upstreams' capabilities.
abbrev pub union : List ServerCapabilities → ServerCapabilities
union us = record {
  tools =
      if has_any (λ u. u.tools) us
      then some (record { list_changed = flag_any (λ u. u.tools) (λ t. t.list_changed) us })
      else none;
  prompts =
      if has_any (λ u. u.prompts) us
      then some (record { list_changed = flag_any (λ u. u.prompts) (λ t. t.list_changed) us })
      else none;
  resources =
      if has_any (λ u. u.resources) us
      then some (record {
        subscribe = flag_any (λ u. u.resources) (λ t. t.subscribe) us;
        list_changed = flag_any (λ u. u.resources) (λ t. t.list_changed) us;
      })
      else none;
  logging = if has_any (λ u. u.logging) us then some logging else none;
  completions = if has_any (λ u. u.completions) us then some completions else none;
}

-- The loop, field by field.
tools_step :
    (m u : Option ToolsCapability) (h f0 : Bool)
    → (h ≡ false → f0 ≡ false)
    → merge_tools (merge_tools m u) (if h then some (record { list_changed = f0 }) else none)
      ≡ merge_tools m (
          if is_some u || h
          then some (record { list_changed = flag_of (λ t. t.list_changed) u || f0 })
          else none)
tools_step m u h f0 p0 = ground (arith, p0)

merge_from-tools :
    (us : List ServerCapabilities) (m : ServerCapabilities)
    → (merge_from m us).tools ≡ merge_tools m.tools (union us).tools
unfolding merge_from merge_one
merge_from-tools [] m = refl
merge_from-tools (u ∷ us) m =
    merge_from-tools us (merge_one m u)
    ∙ tools_step m.tools u.tools (has_any (λ u. u.tools) us)
        (flag_any (λ u. u.tools) (λ t. t.list_changed) us)
        (flag_any-false (λ u. u.tools) (λ t. t.list_changed) us)

prompts_step :
    (m u : Option PromptsCapability) (h f0 : Bool)
    → (h ≡ false → f0 ≡ false)
    → merge_prompts (merge_prompts m u) (if h then some (record { list_changed = f0 }) else none)
      ≡ merge_prompts m (
          if is_some u || h
          then some (record { list_changed = flag_of (λ t. t.list_changed) u || f0 })
          else none)
prompts_step m u h f0 p0 = ground (arith, p0)

merge_from-prompts :
    (us : List ServerCapabilities) (m : ServerCapabilities)
    → (merge_from m us).prompts ≡ merge_prompts m.prompts (union us).prompts
unfolding merge_from merge_one
merge_from-prompts [] m = refl
merge_from-prompts (u ∷ us) m =
    merge_from-prompts us (merge_one m u)
    ∙ prompts_step m.prompts u.prompts (has_any (λ u. u.prompts) us)
        (flag_any (λ u. u.prompts) (λ t. t.list_changed) us)
        (flag_any-false (λ u. u.prompts) (λ t. t.list_changed) us)

resources_step :
    (m u : Option ResourcesCapability) (h f0 f1 : Bool)
    → (h ≡ false → f0 ≡ false)
    → (h ≡ false → f1 ≡ false)
    → merge_resources
        (merge_resources m u)
        (if h then some (record { subscribe = f0; list_changed = f1 }) else none)
      ≡ merge_resources m (
          if is_some u || h
          then some (record {
            subscribe = flag_of (λ t. t.subscribe) u || f0;
            list_changed = flag_of (λ t. t.list_changed) u || f1;
          })
          else none)
resources_step m u h f0 f1 p0 p1 = ground (arith, p0, p1)

merge_from-resources :
    (us : List ServerCapabilities) (m : ServerCapabilities)
    → (merge_from m us).resources ≡ merge_resources m.resources (union us).resources
unfolding merge_from merge_one
merge_from-resources [] m = refl
merge_from-resources (u ∷ us) m =
    merge_from-resources us (merge_one m u)
    ∙ resources_step m.resources u.resources (has_any (λ u. u.resources) us)
        (flag_any (λ u. u.resources) (λ t. t.subscribe) us)
        (flag_any (λ u. u.resources) (λ t. t.list_changed) us)
        (flag_any-false (λ u. u.resources) (λ t. t.subscribe) us)
        (flag_any-false (λ u. u.resources) (λ t. t.list_changed) us)

merge_from-logging :
    (us : List ServerCapabilities) (m : ServerCapabilities)
    → (merge_from m us).logging ≡ merge_logging m.logging (union us).logging
unfolding merge_from merge_one
merge_from-logging [] m = ground arith
merge_from-logging (u ∷ us) m = ground (arith, merge_from-logging us (merge_one m u))

merge_from-completions :
    (us : List ServerCapabilities) (m : ServerCapabilities)
    → (merge_from m us).completions ≡ merge_completions m.completions (union us).completions
unfolding merge_from merge_one
merge_from-completions [] m = ground arith
merge_from-completions (u ∷ us) m = ground (arith, merge_from-completions us (merge_one m u))

-- The merge computes the union: a capability is present exactly if some upstream has it, and each
-- of its flags is the disjunction of that flag over the upstreams that have it.
pub merge-union : (us : List ServerCapabilities) → merge_server_capabilities us ≡ union us
unfolding merge_server_capabilities
merge-union us = ground (
  arith,
  merge_from-tools us no_capabilities,
  merge_from-prompts us no_capabilities,
  merge_from-resources us no_capabilities,
  merge_from-logging us no_capabilities,
  merge_from-completions us no_capabilities,
)

merge_from-merge :
    (us : List ServerCapabilities) (m u : ServerCapabilities)
    → merge_from m (us ++ u ∷ []) ≡ merge_one (merge_from m us) u
unfolding merge_from
merge_from-merge [] m u = refl
merge_from-merge (v ∷ us) m u = merge_from-merge us (merge_one m v) u

merge_one-empty : (m : ServerCapabilities) → merge_one no_capabilities m ≡ m
unfolding merge_one
merge_one-empty m = ground arith

-- Merging in one more upstream at a time, as the handshake does, is merging them all at once.
pub merge_incremental :
    (us : List ServerCapabilities) (u : ServerCapabilities)
    → merge_server_capabilities (merge_server_capabilities us ∷ u ∷ [])
      ≡ merge_server_capabilities (us ++ u ∷ [])
unfolding merge_server_capabilities merge_from
merge_incremental us u =
    ap (λ m. merge_one m u) (merge_one-empty (merge_from no_capabilities us))
    ∙ sym (merge_from-merge us no_capabilities u)
