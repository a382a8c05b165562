-- ===== src/Prelude/Assoc.antt =====
-- Go maps as association lists, over any type of keys with an equality test.
use mathlib.Core.Path.{◌≡◌, refl}
use mathlib.Core.Logic.{◌↔◌, ◌⊎◌, inl, inr}
use mathlib.Core.Bool.{Bool, true}
use mathlib.Core.Option.{Option, none, some}
use mathlib.Core.List.{List, [], ◌∷◌}
use native.Mathlib.Omega.{arith}
use garmx.Prelude.Tests.{if◌then◌else◌, Bool-cases}
use garmx.Prelude.Lists.{In}
use garmx.Prelude.Bytes.{Bytes, equal, equal_iff}

pub record Eq {ℓ} (A : Type ℓ) : Type ℓ where
  pub beq : A → A → Bool
  pub beq_iff : (a b : A) → (beq a b ≡ true) ↔ (a ≡ b)

instance abbrev pub bytes_eq : Eq Bytes
bytes_eq = record { beq = equal; beq_iff = equal_iff }

pub beq_refl : {K : Type 0} ⦃e : Eq K⦄ (k : K) → e.beq k k ≡ true
beq_refl ⦃e⦄ k = (e.beq_iff k k).1 refl

module _ {K V : Type 0} ⦃e : Eq K⦄ where
  unfoldable pub lookup : K → List (K × V) → Option V
  lookup k [] = none
  lookup k ((j, v) ∷ m) = if e.beq j k then some v else lookup k m

  unfoldable pub insert : K → V → List (K × V) → List (K × V)
  insert k v [] = (k, v) ∷ []
  insert k v ((j, w) ∷ m) =
      let rest = insert k v m in if e.beq j k then (k, v) ∷ m else (j, w) ∷ rest

  -- Every entry under the key goes.
  unfoldable pub delete : K → List (K × V) → List (K × V)
  delete k [] = []
  delete k ((j, w) ∷ m) = let rest = delete k m in if e.beq j k then rest else (j, w) ∷ rest

  pub lookup-insert :
      (k j : K) (v : V) (m : List (K × V))
      → lookup j (insert k v m) ≡ (if e.beq k j then some v else lookup j m)
  unfolding lookup insert
  lookup-insert k j v [] = refl
  lookup-insert k j v ((i, w) ∷ m) =
      ground (arith, e.beq_iff k j, e.beq_iff i k, e.beq_iff i j, lookup-insert k j v m)

  pub lookup-insert_self : (k : K) (v : V) (m : List (K × V)) → lookup k (insert k v m) ≡ some v
  lookup-insert_self k v m = ground (arith, lookup-insert k k v m, beq_refl k)

  pub lookup-delete :
      (k j : K) (m : List (K × V))
      → lookup j (delete k m) ≡ (if e.beq k j then none else lookup j m)
  unfolding lookup delete
  lookup-delete k j [] = ground arith
  lookup-delete k j ((i, w) ∷ m) =
      ground (arith, e.beq_iff k j, e.beq_iff i k, e.beq_iff i j, lookup-delete k j m)

  pub lookup-In : (k : K) (m : List (K × V)) (v : V) → lookup k m ≡ some v → In (k, v) m
  unfolding lookup
  lookup-In k [] v h = ground arith
  lookup-In k ((j, w) ∷ m) v h = elim (Bool-cases (e.beq j k)) [
    | inl here ↦ inl (ground (arith, e.beq_iff j k))
    | inr later ↦ inr (lookup-In k m v (ground arith))
  ]

  pub In-insert :
      (k : K) (v : V) (m : List (K × V)) (x : K × V) → In x (insert k v m) → (x ≡ (k, v)) ⊎ In x m
  unfolding insert
  In-insert k v [] x h = ground arith
  In-insert k v ((j, w) ∷ m) x h = ground (arith, In-insert k v m x)

  pub In-delete : (k : K) (m : List (K × V)) (x : K × V) → In x (delete k m) → In x m
  unfolding delete
  In-delete k [] x h = h
  In-delete k ((j, w) ∷ m) x h = ground (arith, In-delete k m x)
