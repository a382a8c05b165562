-- ===== src/Aggregator/Profile/Scope.antt =====
-- What a profile lets through.
use garmx.Prelude.{
  ◌≡◌, refl, subst, Bool, true, false, ◌⊎◌, inl, inr, ◌↔◌, Option, List, [], ◌∷◌, In, is_nil, arith,
  Bool-cases, any-true, any-false, true-any, false-any,
}
use garmx.Prelude.Bytes.{Bytes, equal, equal_iff}
use garmx.Aggregator.Profile.{Profile, allows_server, glob_match, allows_tool}

is_nil_nil {ℓ} : {A : Type ℓ} (xs : List A) → is_nil xs ≡ true → xs ≡ []
is_nil_nil [] h = refl
is_nil_nil (x ∷ xs) h = ground arith

pub allows_server-In : (p : Profile) (s : Bytes) → In s p.servers → allows_server p s ≡ true
unfolding allows_server
allows_server-In p s m =
    ground (arith, true-any (λ t. equal t s) s p.servers m ((equal_iff s s).1 refl))

-- A server is in scope exactly when the profile lists none, or lists this one.
pub allows_server_iff :
    (p : Profile) (s : Bytes) → (allows_server p s ≡ true) ↔ ((p.servers ≡ []) ⊎ In s p.servers)
unfolding allows_server
allows_server_iff p s = (forth, back)
  where
    forth : allows_server p s ≡ true → (p.servers ≡ []) ⊎ In s p.servers
    forth h = elim (Bool-cases (is_nil p.servers)) [
      | inl e ↦ inl (is_nil_nil p.servers e)
      | inr e ↦
          let (t, m, hit) = any-true (λ t. equal t s) p.servers (ground arith) in
          inr (subst (λ x. In x p.servers) ((equal_iff t s).0 hit) m)
    ]

    back : (p.servers ≡ []) ⊎ In s p.servers → allows_server p s ≡ true
    back (inl e) = ground arith
    back (inr m) = allows_server-In p s m

module _ (path_match : Bytes → Bytes → Option Bool) where
  -- A tool is visible exactly when no deny pattern matches its exposed name, and there are no allow
  -- patterns or one of them matches it. So a deny pattern wins over any allow pattern.
  pub allows_tool_iff :
      (p : Profile) (e : Bytes)
      → (allows_tool path_match p e ≡ true) ↔ (
          ((g : Bytes) → In g p.tool_deny → glob_match path_match g e ≡ false)
          × ((p.tool_allow ≡ [])
              ⊎ ((g : Bytes) × In g p.tool_allow × (glob_match path_match g e ≡ true))))
  unfolding allows_tool
  allows_tool_iff p e = (λ h. (denied h, allowed h), λ h. back h.0 h.1)
    where
      hits : Bytes → Bool
      hits g = glob_match path_match g e

      denied : allows_tool path_match p e ≡ true → (g : Bytes) → In g p.tool_deny → hits g ≡ false
      denied h = any-false hits p.tool_deny (ground arith)

      allowed :
          allows_tool path_match p e ≡ true
          → (p.tool_allow ≡ []) ⊎ ((g : Bytes) × In g p.tool_allow × (hits g ≡ true))
      allowed h = elim (Bool-cases (is_nil p.tool_allow)) [
        | inl n ↦ inl (is_nil_nil p.tool_allow n)
        | inr n ↦ inr (any-true hits p.tool_allow (ground arith))
      ]

      back :
          ((g : Bytes) → In g p.tool_deny → hits g ≡ false)
          → (p.tool_allow ≡ []) ⊎ ((g : Bytes) × In g p.tool_allow × (hits g ≡ true))
          → allows_tool path_match p e ≡ true
      back d (inl n) = ground (arith, false-any hits p.tool_deny d)
      back d (inr (g, m, t)) =
          ground (arith, false-any hits p.tool_deny d, true-any hits g p.tool_allow m t)
