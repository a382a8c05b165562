-- ===== src/Upstream/Pending/Delivery.antt =====
-- Who gets which response.
use garmx.Prelude.{◌≡◌, ◌≢◌, refl, ◌∙◌, true, false, none, some, List, [], ◌∷◌, ◌++◌, All, arith}
use garmx.Prelude.Assoc.{
  Eq, lookup, delete, lookup-insert, lookup-insert_self, lookup-delete, beq_refl,
}
use garmx.Upstream.Pending.{
  Pending, register, resolve, close_all, Call, registers, resolves, cancels, closes, step, run,
}

-- The call names another id, and is not the shutdown.
abbrev pub Spares : {K R : Type 0} → K → Call K R → Type 0
Spares k (registers j) = j ≢ k
Spares k (resolves j r) = j ≢ k
Spares k (cancels j) = j ≢ k
Spares k (closes r) = ⊥

module _ {K R : Type 0} ⦃e : Eq K⦄ where
  step-waiters :
      (k : K) (c : Call K R) (p : Pending K R)
      → Spares k c
      → lookup k (step p c).waiters ≡ lookup k p.waiters
  unfolding step
  step-waiters k (registers j) p h =
      ground (arith, lookup-insert j k p.fresh p.waiters, e.beq_iff j k)
  step-waiters k (resolves j r) p h = ground (arith, lookup-delete j k p.waiters, e.beq_iff j k)
  step-waiters k (cancels j) p h = ground (arith, lookup-delete j k p.waiters, e.beq_iff j k)
  step-waiters k (closes r) p h = absurd h

  run-waiters :
      (k : K) (cs : List (Call K R)) (p : Pending K R)
      → All (Spares k) cs
      → lookup k (run p cs).waiters ≡ lookup k p.waiters
  unfolding run
  run-waiters k [] p h = refl
  run-waiters k (c ∷ cs) p h = run-waiters k cs (step p c) h.1 ∙ step-waiters k c p h.0

  step-closed :
      (c : Call K R) (p : Pending K R)
      → p.closed ≡ true
      → p.waiters ≡ []
      → ((step p c).closed ≡ true) × ((step p c).waiters ≡ [])
  unfolding step lookup delete
  step-closed (registers j) p c w = (ground arith, ground arith)
  step-closed (resolves j r) p c w = (ground arith, ground arith)
  step-closed (cancels j) p c w = (ground arith, ground arith)
  step-closed (closes r) p c w = (ground arith, ground arith)

  run-closed :
      (cs : List (Call K R)) (p : Pending K R)
      → p.closed ≡ true
      → p.waiters ≡ []
      → ((run p cs).closed ≡ true) × ((run p cs).waiters ≡ [])
  unfolding run
  run-closed [] p c w = (c, w)
  run-closed (x ∷ xs) p c w = let (d, v) = step-closed x p c w in run-closed xs (step p x) d v

  -- In a map that is not closed an id can be registered, and the response to it goes to the channel
  -- of that registration, whatever calls about other ids come between; a second response to the id
  -- finds no waiter.
  pub resolve-register :
      (k : K) (r again : R) (cs : List (Call K R)) (p : Pending K R)
      → p.closed ≡ false
      → All (Spares k) cs
      → let q = run (register k p).1 cs in
        ((register k p).0 ≡ some p.fresh)
        × ((resolve k r q).0 ≡ true)
        × ((resolve k r q).1.sent ≡ q.sent ++ ((p.fresh, r) ∷ []))
        × ((resolve k again (resolve k r q).1).0 ≡ false)
  unfolding register resolve
  resolve-register k r again cs p o h =
      let q = run (register k p).1 cs in
      let w : lookup k q.waiters ≡ some p.fresh =
        run-waiters k cs (register k p).1 h
        ∙ ground (arith, lookup-insert_self k p.fresh p.waiters) in
      (
        ground arith,
        ground (arith, w),
        ground (arith, w),
        ground (arith, w, lookup-delete k k q.waiters, beq_refl k),
      )

  -- After the shutdown no waiter is left and none is taken, whatever is called.
  pub closes_for_good :
      (cs : List (Call K R)) (p : Pending K R) (answer : R) (k : K)
      → let q = run (close_all answer p) cs in (q.waiters ≡ []) × ((register k q).0 ≡ none)
  unfolding close_all register
  closes_for_good cs p answer k =
      let (c, w) = run-closed cs (close_all answer p) refl refl in (w, ground (arith, c))
