-- ===== src/Upstream/Manager/Names.antt =====
-- The names of a manager: each once, and each with its transport.
use garmx.Prelude.{
  ◌≡◌, ◌≢◌, sym, true, false, none, some, List, [], ◌∷◌, ◌++◌, In, ◌⊎◌, inl, inr, arith, is_some,
  Bool-cases, In-append, In-append_left, In-append_right, Unique,
}
use garmx.Prelude.Bytes.{Bytes, equal, equal_iff}
use garmx.Prelude.Assoc.{lookup, insert, lookup-insert, lookup-insert_self, bytes_eq}
use garmx.Upstream.Transport.{Transports}
use garmx.Upstream.Manager.{Manager, new_manager, duplicate_upstream_name, get, add}

Unique-concat : (ns : List Bytes) (n : Bytes) → Unique ns → (In n ns → ⊥) → Unique (ns ++ (n ∷ []))
Unique-concat [] n u h = (λ m. m, tt)
Unique-concat (x ∷ ns) n u h = (
  λ m. elim (In-append x ns (n ∷ []) m) [
    | inl l ↦ u.0 l
    | inr (inl e) ↦ h (inl (sym e))
    | inr (inr b) ↦ b
  ],
  Unique-concat ns n u.1 (λ m. h (inr m)),
)

-- The order lists exactly the registered names, each once.
pub record IsConsistent {T : Type 0} (m : Manager T) : Type 0 where
  pub unique : Unique m.order
  pub registered : (n : Bytes) → In n m.order → is_some (get m n) ≡ true
  pub listed : (n : Bytes) → is_some (get m n) ≡ true → In n m.order

module _ (N : Transports) where
  open N use {World, Transport}

  pub new_manager-IsConsistent : IsConsistent {T = Transport} new_manager
  unfolding get lookup
  new_manager-IsConsistent = record {
    unique = tt;
    registered = λ n h. absurd h;
    listed = λ n h. cc;
  }

  extend-IsConsistent :
      (name : Bytes) (t : Transport) (m : Manager Transport)
      → is_some (get m name) ≡ false
      → IsConsistent m
      → IsConsistent
          (record m { transports = insert name t m.transports; order = m.order ++ (name ∷ []) })
  unfolding get
  extend-IsConsistent name t m new c = record {
    unique = Unique-concat m.order name c.unique (λ i. ground (arith, c.registered name i));
    registered = λ n i. registered n (In-append n m.order (name ∷ []) i);
    listed = λ n h. listed n h (Bool-cases (equal name n));
  }
    where
      registered :
          (n : Bytes)
          → In n m.order ⊎ In n (name ∷ [])
          → is_some (lookup n (insert name t m.transports)) ≡ true
      registered n (inl i) = ground (arith, c.registered n i, lookup-insert name n t m.transports)
      registered n (inr (inl e)) =
          ground (arith, e, lookup-insert name n t m.transports, equal_iff name n)
      registered n (inr (inr b)) = absurd b

      listed :
          (n : Bytes)
          → is_some (lookup n (insert name t m.transports)) ≡ true
          → (equal name n ≡ true) ⊎ (equal name n ≡ false)
          → In n (m.order ++ (name ∷ []))
      listed n h (inl same) =
          In-append_right n m.order (name ∷ []) (inl (sym ((equal_iff name n).0 same)))
      listed n h (inr other) =
          In-append_left n m.order (name ∷ [])
            (c.listed n (ground (arith, lookup-insert name n t m.transports)))

  -- `Add` keeps the manager consistent, refusals included.
  pub add-IsConsistent :
      (name : Bytes) (t : Transport) (m : Manager Transport) (w : World)
      → IsConsistent m
      → IsConsistent (add N name t m w).1
  unfolding add get
  add-IsConsistent name t m w c = elim (Bool-cases (is_some (get m name))) [
    | inl old ↦ rw (old, add) c
    | inr new ↦ rw (new, add) (extend-IsConsistent name t m new c)
  ]

  -- A name is refused exactly if it is taken, and then nothing changes; otherwise it is found under
  -- the transport given, and every other name as before.
  pub add_lem :
      (name : Bytes) (t : Transport) (m : Manager Transport) (w : World)
      → ((is_some (get m name) ≡ true)
          × (add N name t m w ≡ (some (duplicate_upstream_name name), m, w)))
        ⊎ ((is_some (get m name) ≡ false)
            × ((add N name t m w).0 ≡ none)
            × (get (add N name t m w).1 name ≡ some t)
            × ((n : Bytes) → n ≢ name → get (add N name t m w).1 n ≡ get m n))
  unfolding add get
  add_lem name t m w = elim (Bool-cases (is_some (get m name))) [
    | inl old ↦ inl (old, rw (old, add))
    | inr new ↦ inr (
      new,
      rw (new, add),
      rw (new, add) (lookup-insert_self name t m.transports),
      λ n d.
          rw (new, add) (ground (arith, d, lookup-insert name n t m.transports, equal_iff name n)),
    )
  ]
