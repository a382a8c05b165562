-- ===== src/Upstream/Pending.antt =====
-- internal/upstream/pending.go. Each method runs under the mutex, so a history is a list of calls.
-- A channel is a number; `sent` lists what was put into channels, in order.
pub mod Delivery
pub mod Once
use garmx.Prelude.{
  ℕ, ◌+◌, Bool, true, false, Option, none, some, List, [], ◌∷◌, ◌++◌, map, if◌then◌else◌,
}
use garmx.Prelude.Assoc.{Eq, lookup, insert, delete}

pub record Pending (K R : Type 0) : Type 0 where
  pub waiters : List (K × ℕ)
  pub closed : Bool
  pub fresh : ℕ
  pub sent : List (ℕ × R)

module _ {K R : Type 0} ⦃e : Eq K⦄ where
  unfoldable pub new_pending : Pending K R
  new_pending = record { waiters = []; closed = false; fresh = 0; sent = [] }

  unfoldable pub register : K → Pending K R → Option ℕ × Pending K R
  register id p =
      if p.closed
      then (none, p)
      else (some p.fresh, record p { waiters = insert id p.fresh p.waiters; fresh = p.fresh + 1 })

  unfoldable pub resolve : K → R → Pending K R → Bool × Pending K R
  resolve id resp p = elim (lookup id p.waiters) [
    | none ↦ (false, p)
    | some ch ↦
        (true, record p { waiters = delete id p.waiters; sent = p.sent ++ ((ch, resp) ∷ []) })
  ]

  unfoldable pub cancel : K → Pending K R → Pending K R
  cancel id p = record p { waiters = delete id p.waiters }

  -- `answer` is the response that carries the error.
  unfoldable pub close_all : R → Pending K R → Pending K R
  close_all answer p = record p {
    waiters = [];
    closed = true;
    sent = p.sent ++ map (λ w. (w.1, answer)) p.waiters;
  }

pub data Call (K R : Type 0) : Type 0 where
  registers : K → Call K R
  resolves : K → R → Call K R
  cancels : K → Call K R
  closes : R → Call K R

module _ {K R : Type 0} ⦃e : Eq K⦄ where
  unfoldable pub step : Pending K R → Call K R → Pending K R
  unfolding register resolve cancel close_all
  step p (registers id) = (register id p).1
  step p (resolves id resp) = (resolve id resp p).1
  step p (cancels id) = cancel id p
  step p (closes answer) = close_all answer p

  unfoldable pub run : Pending K R → List (Call K R) → Pending K R
  unfolding step
  run p [] = p
  run p (c ∷ cs) = run (step p c) cs
