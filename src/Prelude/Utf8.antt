-- ===== src/Prelude/Utf8.antt =====
-- Go's UTF-8: what `json.Marshal` makes of a string in which not every byte belongs to a character.
use Prim.Native.Nat.{ℕ, zero, suc}
use mathlib.Core.Bool.{Bool, ◌&&◌}
use mathlib.Core.List.{[], ◌∷◌, ◌++◌}
use garmx.Prelude.Tests.{leb, ◌==◌, if◌then◌else◌}
use garmx.Prelude.Bytes.{Bytes}

abbrev within : ℕ → ℕ → ℕ → Bool
within low high b = leb low b && leb b high

-- Whether a byte may be the second one of a character that begins with this byte.
abbrev second : ℕ → ℕ → Bool
second first b =
    if first == 224
    then within 160 191 b
    else if first == 237
    then within 128 159 b
    else if first == 240
    then within 144 191 b
    else if first == 244
    then within 128 143 b
    else within 128 191 b

-- The number of bytes behind the first one that belong to its character, and 4 for a byte that is
-- no character's first one, as `utf8.DecodeRuneInString` finds them.
rune_rest : ℕ → Bytes → ℕ
rune_rest first bs =
    if leb first 127
    then 0
    else if within 194 223 first
    then (elim bs [ [] ↦ 4 | b ∷ more ↦ if second first b then 1 else 4 ])
    else if within 224 239 first
    then (elim bs [
      | [] ↦ 4
      | b ∷ more ↦ elim more [
        | [] ↦ 4
        | c ∷ rest ↦ if second first b && within 128 191 c then 2 else 4
      ]
    ])
    else if within 240 244 first
    then (elim bs [
      | [] ↦ 4
      | b ∷ more ↦ elim more [
        | [] ↦ 4
        | c ∷ rest ↦ elim rest [
          | [] ↦ 4
          | d ∷ others ↦ if second first b && (within 128 191 c && within 128 191 d) then 3 else 4
        ]
      ]
    ])
    else 4

-- U+FFFD
abbrev replacement : Bytes
replacement = 239 ∷ 191 ∷ 189 ∷ []

-- Behind a character's first byte, as many bytes as it has left pass as they are.
coerce_from : ℕ → Bytes → Bytes
unfolding rune_rest
coerce_from n [] = []
coerce_from (suc n) (b ∷ bs) = b ∷ coerce_from n bs
coerce_from zero (b ∷ bs) =
    let n = rune_rest b bs in
    let rest = coerce_from (if n == 4 then 0 else n) bs in
    (if n == 4 then replacement else b ∷ []) ++ rest

unfoldable pub coerce : Bytes → Bytes
unfolding coerce_from
coerce s = coerce_from 0 s
