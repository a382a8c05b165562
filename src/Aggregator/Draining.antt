-- ===== src/Aggregator/Draining.antt =====
-- `drain`: following the cursors of one upstream.
use mathlib.Core.List.{append_assoc}
use garmx.Prelude.{
  ℕ, zero, suc, ◌≤◌, ◌≡◌, ◌≢◌, refl, sym, ap, ◌∙◌, subst, none, some, List, [], ◌++◌, is_nil, arith,
  ◌↔◌, inl, inr, Bool-cases, Option-cases,
}
use garmx.Prelude.Bytes.{Bytes}
use garmx.Prelude.Json.{Value}
use garmx.Aggregator.Helpers.{list_params}
use garmx.Aggregator.Core.{Environment, page_of, drain}

module _ (N : Environment) (t : N.Transport) (method key : Bytes) where
  open N use {World, send}

  -- From this cursor on, the upstream answers with pages that decode, the last one without a cursor:
  -- their items, the state of the world behind them, and how many they are.
  pub data Serves : Bytes → World → List Value → World → ℕ → Type 0 where
    last :
        {cursor : Bytes} {w : World} {page : List Value}
        → page_of key (send t method (list_params cursor) w).0 ≡ some (page, [])
        → Serves cursor w page (send t method (list_params cursor) w).1 1
    more :
        {cursor next : Bytes} {w u : World} {page rest : List Value} {n : ℕ}
        → page_of key (send t method (list_params cursor) w).0 ≡ some (page, next)
        → next ≢ []
        → Serves next (send t method (list_params cursor) w).1 rest u n
        → Serves cursor w (page ++ rest) u (suc n)

  drain-of-Serves :
      {cursor : Bytes} {w u : World} {found : List Value} {n : ℕ} (fuel : ℕ) (items : List Value)
      → Serves cursor w found u n
      → n ≤ fuel
      → drain N fuel t method key cursor items w ≡ some (some (items ++ found), u)
  unfolding drain
  drain-of-Serves zero items (last p) h = absurd (omega arith)
  drain-of-Serves zero items (more p q s) h = absurd (omega arith)
  drain-of-Serves (suc fuel) items (last p) h = ground arith
  drain-of-Serves {cursor = cursor} {w = w} {u = u} (suc fuel) items
        (more {next = next} {page = page} {rest = rest} {n = n} p q s) h =
      ground (
        arith,
        drain-of-Serves {cursor = next} fuel (items ++ page) s (omega arith),
        append_assoc items page rest,
      )

  pub Serves-of-drain :
      (fuel : ℕ) (cursor : Bytes) (items out : List Value) (w u : World)
      → drain N fuel t method key cursor items w ≡ some (some out, u)
      → (found : List Value) × (n : ℕ) × Serves cursor w found u n
        × (n ≤ fuel)
        × (out ≡ items ++ found)
  unfolding drain
  Serves-of-drain zero cursor items out w u h = ground arith
  Serves-of-drain (suc fuel) cursor items out w u h =
      elim (Option-cases (page_of key (send t method (list_params cursor) w).0)) [
        | inl e ↦ ground arith
        | inr ((page, next), e) ↦ elim (Bool-cases (is_nil next)) [
          | inl stop ↦
              let at_end : next ≡ [] = ground arith in
              let p : page_of key (send t method (list_params cursor) w).0 ≡ some (page, []) =
                e ∙ ap (λ c. some (page, c)) at_end in
              (
                page,
                1,
                subst (λ v. Serves cursor w page v 1) (ground arith) (last p),
                omega arith,
                ground arith,
              )
          | inr on ↦
              let (rest, n, s, le, o) =
                Serves-of-drain fuel next (items ++ page) out
                  (send t method (list_params cursor) w).1 u (ground arith) in
              (
                page ++ rest,
                suc n,
                more e (λ z. ground arith) s,
                omega arith,
                o ∙ append_assoc items page rest,
              )
        ]
      ]

  -- With a given fuel, `drain` returns items exactly if the upstream's pages end after at most that
  -- many requests, and then they are all the items of those pages, in order.
  pub drain_iff :
      (fuel : ℕ) (cursor : Bytes) (out : List Value) (w u : World)
      → (drain N fuel t method key cursor [] w ≡ some (some out, u))
        ↔ ((n : ℕ) × Serves cursor w out u n × (n ≤ fuel))
  drain_iff fuel cursor out w u = (
    λ h.
        let (found, n, s, le, e) = Serves-of-drain fuel cursor [] out w u h in
        (n, subst (λ ps. Serves cursor w ps u n) (sym e) s, le),
    λ (n, s, le). drain-of-Serves fuel [] s le,
  )

  -- An upstream that answers every request with one more cursor is never drained: with no amount of
  -- fuel is there a result.
  pub drain_forever :
      ((cursor : Bytes) (w : World)
        → (page : List Value) × (next : Bytes) × (page_of key
              (send t method (list_params cursor) w).0
            ≡ some (page, next))
          × (next ≢ []))
      → (fuel : ℕ) (cursor : Bytes) (items : List Value) (w : World)
      → drain N fuel t method key cursor items w ≡ none
  unfolding drain
  drain_forever h zero cursor items w = refl
  drain_forever h (suc fuel) cursor items w =
      let (page, next, e, d) = h cursor w in
      ground (
        arith,
        e,
        d,
        drain_forever h fuel next (items ++ page) (send t method (list_params cursor) w).1,
      )
