-- ===== src/Upstream/Pending/Once.antt =====
-- A channel holds one response at most, so a send into it never blocks.
use garmx.Prelude.{
  ℕ, ◌+◌, ◌≤◌, ◌≡◌, refl, some, List, [], ◌∷◌, ◌++◌, map, if◌then◌else◌, ◌==◌, arith, inl, inr,
  Option-cases,
}
use garmx.Prelude.Assoc.{Eq, lookup, insert, delete}
use garmx.Upstream.Pending.{
  Pending, new_pending, Call, registers, resolves, cancels, closes, step, run,
}

-- How often a channel waits, and how often something was put into it.
abbrev pub waiting : {K : Type 0} → ℕ → List (K × ℕ) → ℕ
waiting ch [] = 0
waiting ch ((k, c) ∷ ws) = (if c == ch then 1 else 0) + waiting ch ws

abbrev pub delivered : {R : Type 0} → ℕ → List (ℕ × R) → ℕ
delivered ch [] = 0
delivered ch ((c, r) ∷ ss) = (if c == ch then 1 else 0) + delivered ch ss

delivered-append :
    {R : Type 0} (ch : ℕ) (xs ys : List (ℕ × R))
    → delivered ch (xs ++ ys) ≡ delivered ch xs + delivered ch ys
delivered-append ch [] ys = omega arith
delivered-append ch ((c, r) ∷ xs) ys = omega (arith, delivered-append ch xs ys)

delivered-map :
    {K R : Type 0} (ch : ℕ) (answer : R) (ws : List (K × ℕ))
    → delivered ch (map (λ w. (w.1, answer)) ws) ≡ waiting ch ws
delivered-map ch answer [] = refl
delivered-map ch answer ((k, c) ∷ ws) = omega (arith, delivered-map ch answer ws)

module _ {K : Type 0} ⦃e : Eq K⦄ where
  waiting-insert :
      (ch : ℕ) (k : K) (c : ℕ) (ws : List (K × ℕ))
      → waiting ch (insert k c ws) ≤ waiting ch ws + (if c == ch then 1 else 0)
  unfolding insert
  waiting-insert ch k c [] = omega arith
  waiting-insert ch k c ((j, d) ∷ ws) = ground (arith, waiting-insert ch k c ws)

  waiting-delete : (ch : ℕ) (k : K) (ws : List (K × ℕ)) → waiting ch (delete k ws) ≤ waiting ch ws
  unfolding delete
  waiting-delete ch k [] = omega arith
  waiting-delete ch k ((j, d) ∷ ws) = ground (arith, waiting-delete ch k ws)

  waiting-delete_self :
      (k : K) (c : ℕ) (ws : List (K × ℕ))
      → lookup k ws ≡ some c
      → waiting c (delete k ws) + 1 ≤ waiting c ws
  unfolding lookup delete
  waiting-delete_self k c [] h = ground arith
  waiting-delete_self k c ((j, d) ∷ ws) h =
      ground (arith, waiting-delete_self k c ws, waiting-delete c k ws)

module _ {K R : Type 0} ⦃e : Eq K⦄ where
  abbrev load : ℕ → Pending K R → ℕ
  load ch p = waiting ch p.waiters + delivered ch p.sent

  -- No channel waits twice or holds two responses, and those not yet handed out do neither.
  abbrev OneEach : Pending K R → Type 0
  OneEach p = (ch : ℕ) → (load ch p ≤ 1) × (p.fresh ≤ ch → load ch p ≡ 0)

  step-OneEach : (c : Call K R) (p : Pending K R) → OneEach p → OneEach (step p c)
  unfolding step
  step-OneEach (registers j) p h ch = ground (arith, h ch, waiting-insert ch j p.fresh p.waiters)
  step-OneEach (resolves j r) p h ch = elim (Option-cases (lookup j p.waiters)) [
    | inl n ↦ ground (arith, h ch)
    | inr (c, s) ↦ ground (
      arith,
      h ch,
      waiting-delete ch j p.waiters,
      waiting-delete_self j c p.waiters,
      delivered-append ch p.sent ((c, r) ∷ []),
    )
  ]
  step-OneEach (cancels j) p h ch = ground (arith, h ch, waiting-delete ch j p.waiters)
  step-OneEach (closes r) p h ch = ground (
    arith,
    h ch,
    delivered-append ch p.sent (map (λ w. (w.1, r)) p.waiters),
    delivered-map ch r p.waiters,
  )

  run-OneEach : (cs : List (Call K R)) (p : Pending K R) → OneEach p → OneEach (run p cs)
  unfolding run
  run-OneEach [] p h = h
  run-OneEach (c ∷ cs) p h = run-OneEach cs (step p c) (step-OneEach c p h)

  -- After any history from the empty map, at most one response was put into each channel.
  pub delivered_once : (cs : List (Call K R)) (ch : ℕ) → delivered ch (run new_pending cs).sent ≤ 1
  unfolding new_pending
  delivered_once cs ch =
      omega (arith, (run-OneEach cs new_pending (λ c. (omega arith, λ _. refl)) ch).0)
