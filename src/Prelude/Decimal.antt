-- ===== src/Prelude/Decimal.antt =====
-- What the program uses of Go's `strconv`: `FormatInt` of a number that is not negative, in base ten,
-- and `Atoi`, which is `ParseInt` for 64 bits.
use Prim.Native.Nat.{ℕ, zero, suc, ◌+◌, ◌-◌, ◌*◌, ◌/◌, ◌%◌, ◌≤◌, ◌<◌}
use mathlib.Core.Path.{◌≡◌, sym, ap, ◌∙◌}
use mathlib.Core.Bool.{Bool, true, ◌&&◌}
use mathlib.Core.Logic.{inl, inr}
use mathlib.Core.Option.{Option, none, some}
use mathlib.Core.List.{[], ◌∷◌}
use native.Mathlib.Omega.{arith}
use garmx.Prelude.Tests.{ltb, leb, ◌==◌, if◌then◌else◌, Bool-cases}
use garmx.Prelude.Lists.{is_nil}
use garmx.Prelude.Int.{ℤ, pos, negsuc}
use garmx.Prelude.Bytes.{Bytes}

-- The digits of `n` before `acc`; more fuel than `n` is enough.
unfoldable pub digits : ℕ → ℕ → Bytes → Bytes
digits zero n acc = acc
digits (suc fuel) n acc =
    let rest = digits fuel (n / 10) ((b'0' + n % 10) ∷ acc) in
    if ltb n 10 then (b'0' + n) ∷ acc else rest

unfoldable pub decimal : ℕ → Bytes
unfolding digits
decimal n = digits (n + 1) n []

abbrev pub is_digit : ℕ → Bool
is_digit c = leb b'0' c && leb c b'9'

-- The number that the digits write behind those of `n`.
unfoldable pub read_digits : ℕ → Bytes → Option ℕ
read_digits n [] = some n
read_digits n (c ∷ cs) =
    let rest = read_digits (n * 10 + (c - b'0')) cs in if is_digit c then rest else none

unfoldable pub read_nat : Bytes → Option ℕ
unfolding read_digits
read_nat s = if is_nil s then none else read_digits 0 s

abbrev pub in_range : ℕ → ℕ → Option ℤ → Option ℤ
in_range limit n z = if ltb limit n then none else z

abbrev negative : ℕ → ℤ
negative zero = pos 0
negative (suc n) = negsuc n

-- `strconv.Atoi`; `none` is its error.
unfoldable pub atoi : Bytes → Option ℤ
unfolding read_nat
atoi [] = none
atoi (c ∷ cs) =
    if c == b'-'
    then elim (read_nat cs) [
      | none ↦ none
      | some n ↦ in_range 9_223_372_036_854_775_808 n (some (negative n))
    ]
    else elim (read_nat (if c == b'+' then cs else c ∷ cs)) [
      | none ↦ none
      | some n ↦ in_range 9_223_372_036_854_775_807 n (some (pos n))
    ]

read_digits-digits :
    (fuel n : ℕ) (acc : Bytes) → n < fuel → read_digits 0 (digits fuel n acc) ≡ read_digits n acc
unfolding digits read_digits
read_digits-digits zero n acc h = absurd (omega (arith, h))
read_digits-digits (suc fuel) n acc h = elim (Bool-cases (ltb n 10)) [
  | inl small ↦ ground (arith, small)
  | inr big ↦ ground (arith, big, read_digits-digits fuel (n / 10) ((b'0' + n % 10) ∷ acc))
]

digits-head :
    (fuel n : ℕ) (acc : Bytes)
    → n < fuel
    → (c : ℕ) × (cs : Bytes) × (digits fuel n acc ≡ c ∷ cs) × (is_digit c ≡ true)
unfolding digits
digits-head zero n acc h = absurd (omega (arith, h))
digits-head (suc fuel) n acc h = elim (Bool-cases (ltb n 10)) [
  | inl small ↦ (b'0' + n, acc, ground (arith, small), ground (arith, small))
  | inr big ↦
      let (c, cs, e, d) = digits-head fuel (n / 10) ((b'0' + n % 10) ∷ acc) (ground (arith, big)) in
      (c, cs, ground (arith, big, e), d)
]

pub read_digits-decimal : (n : ℕ) → read_digits 0 (decimal n) ≡ some n
unfolding decimal read_digits
read_digits-decimal n = read_digits-digits (n + 1) n [] (omega arith)

pub decimal-injective : (m n : ℕ) → decimal m ≡ decimal n → m ≡ n
decimal-injective m n e =
    let same : some m ≡ some n =
      sym (read_digits-decimal m) ∙ ap (read_digits 0) e ∙ read_digits-decimal n in
    cc

atoi-unsigned :
    (c : ℕ) (cs : Bytes) (n : ℕ)
    → is_digit c ≡ true
    → read_digits 0 (c ∷ cs) ≡ some n
    → n ≤ 9_223_372_036_854_775_807
    → atoi (c ∷ cs) ≡ some (pos n)
unfolding atoi read_nat
atoi-unsigned c cs n d r h = ground (arith, d, r)

-- A number that 64 bits hold is read back as it was written.
pub atoi-decimal : (n : ℕ) → n ≤ 9_223_372_036_854_775_807 → atoi (decimal n) ≡ some (pos n)
unfolding decimal
atoi-decimal n h =
    let (c, cs, e, d) = digits-head (n + 1) n [] (omega arith) in
    ap atoi e ∙ atoi-unsigned c cs n d (ap (read_digits 0) (sym e) ∙ read_digits-decimal n) h
