-- ===== src/Aggregator/Notify/Coalescing.antt =====
-- The timer of the notifier, and what waits for it.
use mathlib.Core.Bool.{false≢true}
use mathlib.Core.List.{append_assoc, append-nil}
use garmx.Prelude.{
  ◌≡◌, refl, sym, ◌∙◌, subst, true, false, not, List, [], ◌∷◌, ◌++◌, map, In, Unique, any, is_nil,
  arith, inl, inr, if◌then◌else◌, Bool-cases, any-true, true-any, In-append, In-append_right,
  if_both,
}
use garmx.Prelude.Bytes.{Bytes, equal, equal_iff}
use garmx.Prelude.Json.{absent}
use garmx.Mcp.Message.{new_notification}
use garmx.Aggregator.Profile.{Profile, allows_server}
use garmx.Aggregator.Handlers.{is_list_changed}
use garmx.Aggregator.Notify.{
  Outbox, new_outbox, emit_raw, emit_to_client, schedule, emit_each, flush,
  on_upstream_notification, Happening, connects, sends, fires, step, run,
}

-- The timer is armed exactly while something waits for it, and no method waits twice.
pub record IsCoalescing (o : Outbox) : Type 0 where
  pub unique : Unique o.pending
  pub armed : o.timer ≡ not (is_nil o.pending)

Unique-concat : (ns : List Bytes) (n : Bytes) → Unique ns → (In n ns → ⊥) → Unique (ns ++ (n ∷ []))
Unique-concat [] n u h = (λ m. m, tt)
Unique-concat (x ∷ ns) n u h = (
  λ m. elim (In-append x ns (n ∷ []) m) [
    | inl l ↦ u.0 l
    | inr (inl e) ↦ h (inl (sym e))
    | inr (inr b) ↦ b
  ],
  Unique-concat ns n u.1 (λ m. h (inr m)),
)

not_waiting : (n : Bytes) (ns : List Bytes) → any (equal n) ns ≡ false → In n ns → ⊥
not_waiting n ns h m = false≢true (sym h ∙ true-any (equal n) n ns m ((equal_iff n n).1 refl))

pub waiting : (n : Bytes) (ns : List Bytes) → any (equal n) ns ≡ true → In n ns
waiting n ns h =
    let (y, m, e) = any-true (equal n) ns h in subst (λ z. In z ns) (sym ((equal_iff n y).0 e)) m

filled : (n : Bytes) (ns : List Bytes) → In n ns → not (is_nil ns) ≡ true
filled n [] h = absurd h
filled n (x ∷ xs) h = refl

schedule-IsCoalescing : (m : Bytes) (o : Outbox) → IsCoalescing o → IsCoalescing (schedule m o)
unfolding schedule
schedule-IsCoalescing m o h = elim (Bool-cases (any (equal m) o.pending)) [
  | inl e ↦ record {
    unique = ground (arith, h.unique);
    armed = ground (arith, filled m o.pending (waiting m o.pending e));
  }
  | inr e ↦ record {
    unique = ground (arith, Unique-concat o.pending m h.unique (not_waiting m o.pending e));
    armed =
        ground (
          arith,
          filled m (o.pending ++ (m ∷ [])) (In-append_right m o.pending (m ∷ []) (inl refl)),
        );
  }
]

-- The emission of several methods.
pub emit_each_lem :
    (ms : List Bytes) (o : Outbox)
    → emit_each ms o ≡ (
        if o.client_notify
        then record o { emitted = o.emitted ++ map (λ m. new_notification m absent) ms }
        else o)
unfolding emit_each emit_to_client emit_raw
emit_each_lem [] o = ground (arith, append-nil o.emitted)
emit_each_lem (m ∷ ms) o = ground (
  arith,
  emit_each_lem ms (record o { emitted = o.emitted ++ (new_notification m absent ∷ []) }),
  emit_each_lem ms o,
  append_assoc o.emitted (new_notification m absent ∷ []) (map (λ m. new_notification m absent) ms),
)

module _ (p : Profile) where
  step-IsCoalescing : (o : Outbox) (h : Happening) → IsCoalescing o → IsCoalescing (step p o h)
  unfolding step on_upstream_notification emit_raw flush
  step-IsCoalescing o connects c = record { unique = c.unique; armed = c.armed }
  step-IsCoalescing o (sends server n) c = if_both IsCoalescing (not (allows_server p server)) c (
      if_both IsCoalescing (is_list_changed n.method) (schedule-IsCoalescing n.method o c)
        (if_both IsCoalescing o.client_notify (record { unique = c.unique; armed = c.armed }) c))
  step-IsCoalescing o fires c =
      if_both IsCoalescing o.timer
        (subst IsCoalescing
          (sym (emit_each_lem o.pending (record o { pending = []; timer = false })))
          (if_both IsCoalescing o.client_notify (record { unique = tt; armed = refl })
            (record { unique = tt; armed = refl })))
        c

  pub run-IsCoalescing_from :
      (o : Outbox) (hs : List Happening) → IsCoalescing o → IsCoalescing (run p o hs)
  unfolding run
  run-IsCoalescing_from o [] c = c
  run-IsCoalescing_from o (h ∷ hs) c =
      run-IsCoalescing_from (step p o h) hs (step-IsCoalescing o h c)

  -- At every moment of a session, whatever the upstreams sent and whenever the timer fired, the timer
  -- is armed exactly if some method waits for it, and no method waits twice.
  pub run-IsCoalescing : (hs : List Happening) → IsCoalescing (run p new_outbox hs)
  run-IsCoalescing hs = run-IsCoalescing_from new_outbox hs (record { unique = tt; armed = refl })
