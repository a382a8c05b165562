-- ===== src/Aggregator/Calls/Exposure.antt =====
-- Which items of an upstream a list shows.
use garmx.Prelude.{
  ◌≡◌, refl, sym, ap, ◌∙◌, subst, Bool, true, not, ◌&&◌, some, List, [], ◌∷◌, In, arith, ◌⊎◌, ◌↔◌,
  inl, inr, Bool-cases, Option-cases,
}
use garmx.Prelude.Bytes.{Bytes}
use garmx.Prelude.Json.{Value}
use garmx.Aggregator.Profile.{allows_tool}
use garmx.Aggregator.Helpers.{prefix_item_name}
use garmx.Aggregator.Core.{Environment, Aggregator, expose}

module _ (N : Environment) where
  open N use {World, Transport, send, path_match}

  -- The listed value comes from this item of the upstream.
  abbrev pub Exposes : Aggregator N → Bool → Bytes → Value → Value → Type 0
  Exposes a tool_filter server item v =
      (exposed : Bytes) × (prefix_item_name server item ≡ some (exposed, v))
      × (tool_filter ≡ true → allows_tool path_match a.profile exposed ≡ true)

  pub expose-In :
      (a : Aggregator N) (tool_filter : Bool) (server : Bytes) (items : List Value) (v : Value)
      → In v (expose N a tool_filter server items)
      → (item : Value) × In item items × Exposes a tool_filter server item v
  unfolding expose
  expose-In a tool_filter server [] v h = absurd h
  expose-In a tool_filter server (item ∷ items) v h =
      elim (Option-cases (prefix_item_name server item)) [
        | inl e ↦
            let (x, i, d) = expose-In a tool_filter server items v (rw (e, expose) at h) in
            (x, inr i, d)
        | inr ((exposed, w), e) ↦
            elim (Bool-cases (tool_filter && not (allows_tool path_match a.profile exposed))) [
              | inl hidden ↦
                  let (x, i, d) =
                    expose-In a tool_filter server items v (rw (e, hidden, expose) at h) in
                  (x, inr i, d)
              | inr shown ↦
                  elim (let k : (v ≡ w) ⊎ In v (expose N a tool_filter server items) =
                      rw (e, shown, expose) at h in
                    k) [
                      | inl same ↦ (
                        item,
                        inl refl,
                        (exposed, e ∙ ap (λ z. some (exposed, z)) (sym same), λ on. ground arith),
                      )
                      | inr later ↦
                          let (x, i, d) = expose-In a tool_filter server items v later in
                          (x, inr i, d)
                    ]
            ]
      ]

  In-expose :
      (a : Aggregator N) (tool_filter : Bool) (server : Bytes) (items : List Value) (v item : Value)
      → In item items
      → Exposes a tool_filter server item v
      → In v (expose N a tool_filter server items)
  unfolding expose
  In-expose a tool_filter server [] v item i d = absurd i
  In-expose a tool_filter server (x ∷ items) v item (inl same) (exposed, e, vis) =
      let f : prefix_item_name server x ≡ some (exposed, v) =
        subst (λ y. prefix_item_name server y ≡ some (exposed, v)) same e in
      ground (arith, f, vis)
  In-expose a tool_filter server (x ∷ items) v item (inr i) d =
      ground (arith, In-expose a tool_filter server items v item i d)

  -- Exactly the upstream's items with a usable name are listed, under their exposed names, less
  -- those that the tool filter hides.
  pub expose_iff :
      (a : Aggregator N) (tool_filter : Bool) (server : Bytes) (items : List Value) (v : Value)
      → In v (expose N a tool_filter server items)
        ↔ ((item : Value) × In item items × Exposes a tool_filter server item v)
  expose_iff a tool_filter server items v = (
    expose-In a tool_filter server items v,
    λ (item, i, d). In-expose a tool_filter server items v item i d,
  )
