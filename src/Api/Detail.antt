-- ===== src/Api/Detail.antt =====
-- One entry over HTTP.
use garmx.Prelude.{
  ℕ, ◌≡◌, ◌≢◌, refl, ap, sym, ◌∙◌, subst, Option, none, some, [], ◌∷◌, In, arith, ◌⊎◌, inl, inr,
  Option-cases, pos, negsuc, ℤ,
}
use garmx.Prelude.Bytes.{Bytes, text, equal}
use garmx.Prelude.Decimal.{atoi}
use garmx.Audit.Store.{Cells, Logged, Store, scan_log, get}
use garmx.Audit.Store.Rows.{IsTable}
use garmx.Audit.Store.Pages.{get_iff}
use garmx.Api.{
  Server, Response, detail, not_found, server_error, pretty_json, handle_log_detail, handler,
}

-- The page of an entry.
abbrev pub page_of : Server → Logged → Response
page_of s l = detail (record {
  entry = l;
  request_pretty = pretty_json s l.entry.request_payload;
  response_pretty = pretty_json s l.entry.response_payload;
})

-- What the table holds under an id.
abbrev pub stored : Store → ℤ → Option Logged
stored store (pos n) = get n store
stored store (negsuc n) = none

-- Over a table whose ids are all different, read by a query that fails or gives what the table
-- holds: a request for an id is answered with 500 exactly if the id is a number of 64 bits and the
-- query fails; with the page of a row that has this id; or with 404, and then the id is no such
-- number, or there is no such row.
pub handle_log_detail_lem :
    (s : Server) (store : Store) (id : Bytes)
    → IsTable store
    → ((z : ℤ) → (s.store.get z ≡ none) ⊎ (s.store.get z ≡ some (stored store z)))
    → let r = handler s (text "logs" ∷ id ∷ []) [] [] in
      ((r ≡ server_error) × ((z : ℤ) × (atoi id ≡ some z) × (s.store.get z ≡ none)))
      ⊎ (((n : ℕ) × (c : Cells) × (atoi id ≡ some (pos n))
            × In c store.rows
            × (c.id ≡ n)
            × (s.store.get (pos n) ≢ none)
            × (r ≡ page_of s (scan_log c)))
          ⊎ ((r ≡ not_found)
              × ((atoi id ≡ none)
                  ⊎ ((z : ℤ) × (atoi id ≡ some z)
                      × (s.store.get z ≢ none)
                      × ((c : Cells) → In c store.rows → pos c.id ≢ z)))))
unfolding handler handle_log_detail equal
handle_log_detail_lem s store id h reads = elim (Option-cases (atoi id)) [
  | inl e ↦ inr (inr (ground (arith, e), inl e))
  | inr (z, e) ↦ elim (reads z) [
    | inl failed ↦ inl (ground (arith, e, failed), (z, e, failed))
    | inr q ↦ elim (stored_row z) [
      | inl (n, c, i, m, j, g) ↦ inr (
          inl (
            n,
            c,
            e ∙ ap some i,
            m,
            j,
            subst (λ y. s.store.get y ≢ none) i (λ x. some≢none (sym q ∙ x)),
            ground (arith, e, q, g),
          ))
      | inr (g, none_there) ↦
          inr (inr (ground (arith, e, q, g), inr (z, e, (λ x. some≢none (sym q ∙ x)), none_there)))
    ]
  ]
]
  where
    some≢none : {x : Option Logged} → ◌≢◌ {A = Option (Option Logged)} (some x) none
    some≢none e = ground (arith, e)

    stored_row :
        (z : ℤ)
        → ((n : ℕ) × (c : Cells) × (z ≡ pos n)
            × In c store.rows
            × (c.id ≡ n)
            × (stored store z ≡ some (scan_log c)))
          ⊎ ((stored store z ≡ none) × ((c : Cells) → In c store.rows → pos c.id ≢ z))
    stored_row (negsuc n) = inr (refl, λ c m x. cc)
    stored_row (pos n) = elim (Option-cases (get n store)) [
      | inl g ↦ inr (g, λ c m x. no_row n g c m x)
      | inr (l, g) ↦
          let (c, m, i, r) = (get_iff store n l h).0 g in
          inl (n, c, refl, m, i, g ∙ ap some (sym r))
    ]
      where
        no_row : (n : ℕ) → get n store ≡ none → (c : Cells) → In c store.rows → pos c.id ≡ pos n → ⊥
        no_row n g c m z =
            let found = (get_iff store n (scan_log c) h).1 (c, m, same_id c.id n z, refl) in
            ground (arith, g, found)
          where
            same_id : (a b : ℕ) → pos a ≡ pos b → a ≡ b
            same_id a b z = ground (arith, z)
