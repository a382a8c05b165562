-- ===== src/Audit/Redact/Clean.antt =====
-- What a redacted payload can still hold.
use garmx.Prelude.{
  ◌≡◌, refl, sym, ap, ◌∙◌, true, false, none, some, List, [], ◌∷◌, ◌++◌, ◌>>=◌, is_nil, map, keep,
  not, if◌then◌else◌, ◌≢◌, In-append, In-append_left, In-append_right, In-keep, keep-In, any-true,
  true-any, arith, ◌⊎◌, inl, inr, ◌↔◌, Option-cases, In, if_cases, subst,
}
use garmx.Prelude.Bytes.{Bytes, equal, equal_iff, lower}
use garmx.Prelude.Json.{
  Value, null, bool, int, num, str, arr, obj, Items, nil, cons, Fields, end, field, Raw, absent,
  malformed, json, find,
}
use garmx.Audit.Redact.{
  Redactor, new_redactor, is_secret, redacted_marker, default_redact_keys, Floats, walk, walk_items,
  walk_fields, read_any, redact, unredactable,
}

-- Under a secret key there is nothing but the marker, at any depth.
unfoldable mutual
  pub Clean : Redactor → Value → Type 0
  Clean r (obj fs) = CleanFields r fs
  Clean r (arr vs) = CleanItems r vs
  Clean r null = Unit {0}
  Clean r (bool b) = Unit {0}
  Clean r (int z) = Unit {0}
  Clean r (num b) = Unit {0}
  Clean r (str s) = Unit {0}

  pub CleanItems : Redactor → Items → Type 0
  CleanItems r nil = Unit {0}
  CleanItems r (cons v vs) = Clean r v × CleanItems r vs

  pub CleanFields : Redactor → Fields → Type 0
  CleanFields r end = Unit {0}
  CleanFields r (field k v fs) =
      ((is_secret r k ≡ false) ⊎ (v ≡ str redacted_marker)) × Clean r v × CleanFields r fs

unfoldable pub CleanRaw : Redactor → Raw → Type 0
CleanRaw r absent = Unit {0}
CleanRaw r (malformed b) = ⊥
CleanRaw r (json v) = Clean r v

mutual
  unfolding walk walk_items walk_fields Clean CleanItems CleanFields

  walk-Clean : (r : Redactor) (v : Value) → Clean r (walk r v)
  walk-Clean r (obj fs) = walk_fields-Clean r fs
  walk-Clean r (arr vs) = walk_items-Clean r vs
  walk-Clean r null = tt
  walk-Clean r (bool b) = tt
  walk-Clean r (int z) = tt
  walk-Clean r (num b) = tt
  walk-Clean r (str s) = tt

  walk_items-Clean : (r : Redactor) (vs : Items) → CleanItems r (walk_items r vs)
  walk_items-Clean r nil = tt
  walk_items-Clean r (cons v vs) = (walk-Clean r v, walk_items-Clean r vs)

  walk_fields-Clean : (r : Redactor) (fs : Fields) → CleanFields r (walk_fields r fs)
  walk_fields-Clean r end = tt
  walk_fields-Clean r (field k v fs) =
      let (here, inside) =
        if_cases (λ w. ((is_secret r k ≡ false) ⊎ (w ≡ str redacted_marker)) × Clean r w)
          (is_secret r k) (λ s. (inr refl, tt)) (λ s. (inl s, walk-Clean r v)) in
      (here, inside, walk_fields-Clean r fs)

-- Whatever the payload, what `Redact` returns for it is either nothing at all, for an empty payload,
-- or a document in which every value under a secret key, at any depth, is the marker.
pub redact-Clean : (F : Floats) (r : Redactor) (raw : Raw) → CleanRaw r (redact F r raw)
unfolding redact CleanRaw Clean
redact-Clean F r absent = tt
redact-Clean F r (malformed b) = tt
redact-Clean F r (json v) = elim (Option-cases (read_any F v)) [
  | inl e ↦
      subst (λ o. CleanRaw r (elim o [ none ↦ unredactable F | some u ↦ json (walk r u) ])) (sym e)
        tt
  | inr (u, e) ↦
      subst (λ o. CleanRaw r (elim o [ none ↦ unredactable F | some u ↦ json (walk r u) ])) (sym e)
        (walk-Clean r u)
]

-- What `walk` makes of one field of an object: the marker under a secret key, and otherwise what it
-- makes of the value; no field is added or lost.
pub find-walk_fields :
    (r : Redactor) (k : Bytes) (fs : Fields)
    → find k (walk_fields r fs)
      ≡ (find k fs >>= λ v. some (if is_secret r k then str redacted_marker else walk r v))
unfolding find walk_fields
find-walk_fields r k end = refl
find-walk_fields r k (field j v fs) = ground (arith, equal_iff k j, find-walk_fields r k fs)

mutual
  unfolding walk walk_items walk_fields

  walk_again : (r : Redactor) (v : Value) → walk r (walk r v) ≡ walk r v
  walk_again r (obj fs) = ap obj (walk_fields_again r fs)
  walk_again r (arr vs) = ap arr (walk_items_again r vs)
  walk_again r null = refl
  walk_again r (bool b) = refl
  walk_again r (int z) = refl
  walk_again r (num b) = refl
  walk_again r (str s) = refl

  walk_items_again : (r : Redactor) (vs : Items) → walk_items r (walk_items r vs) ≡ walk_items r vs
  walk_items_again r nil = refl
  walk_items_again r (cons v vs) = ground (arith, walk_again r v, walk_items_again r vs)

  walk_fields_again :
      (r : Redactor) (fs : Fields) → walk_fields r (walk_fields r fs) ≡ walk_fields r fs
  walk_fields_again r end = refl
  walk_fields_again r (field k v fs) = ground (arith, walk_again r v, walk_fields_again r fs)

-- Walking a redacted document again changes nothing.
pub walk-walk : (r : Redactor) (v : Value) → walk r (walk r v) ≡ walk r v
walk-walk r v = walk_again r v

In-map-lower :
    (x : Bytes) (xs : List Bytes) → In x (map lower xs) ↔ ((y : Bytes) × In y xs × (x ≡ lower y))
In-map-lower x [] = ((λ h. absurd h), (λ (y, m, e). m))
In-map-lower x (y ∷ ys) = (
  λ h. elim h [
    | inl e ↦ (y, inl refl, e)
    | inr m ↦ let (z, i, e) = (In-map-lower x ys).0 m in (z, inr i, e)
  ],
  λ (z, m, e). elim m [
    | inl q ↦ inl (e ∙ ap lower q)
    | inr i ↦ inr ((In-map-lower x ys).1 (z, i, e))
  ],
)

-- A key is secret exactly if, but for case, it is a built-in one or an extra one that is not empty.
pub is_secret_iff :
    (extra : List Bytes) (key : Bytes)
    → (is_secret (new_redactor extra) key ≡ true) ↔ (
        ((k : Bytes) × In k default_redact_keys × (lower key ≡ lower k))
        ⊎ ((k : Bytes) × In k extra × (k ≢ []) × (lower key ≡ lower k)))
unfolding is_secret new_redactor
is_secret_iff extra key = (forth, back)
  where
    kept : List Bytes
    kept = keep (λ k. not (is_nil k)) extra

    filled : (k : Bytes) → not (is_nil k) ≡ true → k ≢ []
    filled k h e = ground arith

    is_filled : (k : Bytes) → k ≢ [] → not (is_nil k) ≡ true
    is_filled [] h = absurd (h refl)
    is_filled (b ∷ bs) h = refl

    forth :
        is_secret (new_redactor extra) key ≡ true
        → ((k : Bytes) × In k default_redact_keys × (lower key ≡ lower k))
          ⊎ ((k : Bytes) × In k extra × (k ≢ []) × (lower key ≡ lower k))
    forth h =
        let (x, m, e) =
          any-true (equal (lower key)) (map lower default_redact_keys ++ map lower kept) h in
        let q : lower key ≡ x = (equal_iff (lower key) x).0 e in
        elim (In-append x (map lower default_redact_keys) (map lower kept) m) [
          | inl i ↦ let (k, n, r) = (In-map-lower x default_redact_keys).0 i in inl (k, n, q ∙ r)
          | inr i ↦
              let (k, n, r) = (In-map-lower x kept).0 i in
              let (o, f) = In-keep (λ k. not (is_nil k)) k extra n in inr (k, o, filled k f, q ∙ r)
        ]

    back :
        ((k : Bytes) × In k default_redact_keys × (lower key ≡ lower k))
          ⊎ ((k : Bytes) × In k extra × (k ≢ []) × (lower key ≡ lower k))
        → is_secret (new_redactor extra) key ≡ true
    back (inl (k, m, e)) =
        true-any (equal (lower key)) (lower key) (map lower default_redact_keys ++ map lower kept)
          (In-append_left (lower key) (map lower default_redact_keys) (map lower kept)
            ((In-map-lower (lower key) default_redact_keys).1 (k, m, e)))
          ((equal_iff (lower key) (lower key)).1 refl)
    back (inr (k, m, f, e)) =
        true-any (equal (lower key)) (lower key) (map lower default_redact_keys ++ map lower kept)
          (In-append_right (lower key) (map lower default_redact_keys) (map lower kept) (
            (In-map-lower (lower key) kept).1
              (k, keep-In (λ k. not (is_nil k)) k extra m (is_filled k f), e)))
          ((equal_iff (lower key) (lower key)).1 refl)
