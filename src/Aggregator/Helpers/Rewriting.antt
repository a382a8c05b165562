-- ===== src/Aggregator/Helpers/Rewriting.antt =====
-- Rewriting the name of a list item.
use garmx.Prelude.{◌≡◌, ◌≢◌, some, arith, Option-cases, inl, inr}
use garmx.Prelude.Bytes.{Bytes, text, equal_iff}
use garmx.Prelude.Json.{
  Value, str, obj, Fields, json, insert, find, find-insert, find-insert_self, to_map, string_at,
}
use garmx.Aggregator.Naming.{prefix}
use garmx.Aggregator.Helpers.{prefix_item_name}

-- An item is exposed under the prefix of its own name, and the rewritten item has that name and
-- every other field as it was.
pub prefix_item_name-fields :
    (server exposed : Bytes) (item rewritten : Value)
    → prefix_item_name server item ≡ some (exposed, rewritten)
    → (name : Bytes) × (before : Fields) × (after : Fields) × (to_map (json item) ≡ some before)
      × (string_at (text "name") before ≡ some name)
      × (exposed ≡ prefix server name)
      × (rewritten ≡ obj after)
      × (find (text "name") after ≡ some (str exposed))
      × ((k : Bytes) → k ≢ text "name" → find k after ≡ find k before)
unfolding prefix_item_name
prefix_item_name-fields server exposed item rewritten h = elim (Option-cases (to_map (json item))) [
  | inl n ↦ ground arith
  | inr (before, e) ↦ elim (Option-cases (string_at (text "name") before)) [
    | inl n ↦ ground arith
    | inr (name, f) ↦
        let after = insert (text "name") (str (prefix server name)) before in
        (
          name,
          before,
          after,
          e,
          f,
          ground arith,
          ground arith,
          ground (arith, find-insert_self (text "name") (str (prefix server name)) before),
          λ k d. ground (
            arith,
            d,
            find-insert k (text "name") (str (prefix server name)) before,
            equal_iff k (text "name"),
          ),
        )
  ]
]
