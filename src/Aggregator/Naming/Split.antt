-- ===== src/Aggregator/Naming/Split.antt =====
-- `Split` against `Prefix`.
use garmx.Prelude.{
  ℕ, zero, suc, ◌+◌, ◌≡◌, refl, ◌≢◌, true, [], ◌∷◌, ◌++◌, some, arith, ok, length, take, drop, all,
  Bool-cases, Option-cases, inl, inr, take-length-append,
}
use garmx.Prelude.Bytes.{Bytes, index, has_prefix}
use garmx.Aggregator.Naming.{
  delimiter, is_name_byte, matches_server_name, validate_server_name, prefix, split,
}

-- Names of this kind hold no underscore, so the first delimiter is the one behind them.
index-all :
    (s rest : Bytes)
    → all is_name_byte s ≡ true
    → index (s ++ (delimiter ++ rest)) delimiter ≡ some (length s)
unfolding index has_prefix
index-all [] rest h = ground arith
index-all (c ∷ cs) rest h = ground (arith, index-all cs rest)

matches_server_name-all : (s : Bytes) → matches_server_name s ≡ true → all is_name_byte s ≡ true
unfolding matches_server_name
matches_server_name-all [] h = ground arith
matches_server_name-all (c ∷ cs) h = ground arith

validate-matches :
    (s : Bytes) → validate_server_name s ≡ ok tt → (matches_server_name s ≡ true) × (s ≢ [])
unfolding validate_server_name
validate-matches s h = ground arith

drop-delimiter : (s n : Bytes) → drop (length s + 3) (s ++ (delimiter ++ n)) ≡ n
drop-delimiter [] n = refl
drop-delimiter (c ∷ cs) n = ground (arith, drop-delimiter cs n)

has_prefix-delimiter : (t : Bytes) → has_prefix t delimiter ≡ true → delimiter ++ drop 3 t ≡ t
unfolding has_prefix
has_prefix-delimiter [] h = ground arith
has_prefix-delimiter (a ∷ []) h = ground arith
has_prefix-delimiter (a ∷ b ∷ []) h = ground arith
has_prefix-delimiter (a ∷ b ∷ c ∷ t) h = ground arith

-- Where the search finds the delimiter, the text is what stands before it, it, and the rest.
index-splits :
    (t : Bytes) (i : ℕ) → index t delimiter ≡ some i → prefix (take i t) (drop (i + 3) t) ≡ t
unfolding index
index-splits [] i h = ground (arith, has_prefix-delimiter [])
index-splits (c ∷ cs) zero h = elim (Bool-cases (has_prefix (c ∷ cs) delimiter)) [
  | inl here ↦ has_prefix-delimiter (c ∷ cs) here
  | inr later ↦ ground arith
]
index-splits (c ∷ cs) (suc i) h = ground (arith, index-splits cs i)

-- A name built from a valid server name and a name that is not empty splits into the two again.
pub split-prefix :
    (server name : Bytes)
    → validate_server_name server ≡ ok tt
    → name ≢ []
    → split (prefix server name) ≡ some (server, name)
unfolding split
split-prefix server name v n =
    let (m, ne) = validate-matches server v in
    rw (index-all server name (matches_server_name-all server m), split)
      (ground (arith, take-length-append server (delimiter ++ name), drop-delimiter server name))

-- Whatever splits is the exposed name of the two parts; the server's is valid and the other not empty.
pub split_sound :
    (exposed server name : Bytes)
    → split exposed ≡ some (server, name)
    → (exposed ≡ prefix server name) × (validate_server_name server ≡ ok tt) × (name ≢ [])
unfolding split
split_sound exposed server name h = elim (Option-cases (index exposed delimiter)) [
  | inl e ↦ ground arith
  | inr (i, e) ↦ ground (arith, index-splits exposed i)
]
