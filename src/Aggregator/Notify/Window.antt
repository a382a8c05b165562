-- ===== src/Aggregator/Notify/Window.antt =====
-- One window of the notifier: what it merges, and what it passes on.
use mathlib.Core.Bool.{false≢true}
use mathlib.Core.List.{append_assoc, append-nil}
use garmx.Prelude.{
  ◌≡◌, refl, sym, ap, ◌∙◌, subst, Bool, true, false, not, ◌&&◌, List, [], ◌∷◌, ◌++◌, map, In,
  Unique, keep, any, is_nil, arith, ◌⊎◌, inl, inr, ◌↔◌, Bool-cases, In-append, In-append_left,
  In-append_right,
}
use garmx.Prelude.Bytes.{Bytes, equal}
use garmx.Prelude.Json.{absent}
use garmx.Mcp.Message.{Notification, new_notification}
use garmx.Aggregator.Profile.{Profile, allows_server}
use garmx.Aggregator.Handlers.{is_list_changed}
use garmx.Aggregator.Notify.{
  Outbox, emit_raw, schedule, flush, on_upstream_notification, Happening, sends, fires, step, run,
}
use garmx.Aggregator.Notify.Coalescing.{IsCoalescing, waiting, emit_each_lem, run-IsCoalescing_from}

abbrev note : Bytes → Notification
note m = new_notification m absent

-- The notification is one that the profile lets through as it is.
abbrev passes : Profile → Bytes × Notification → Bool
passes p x = allows_server p x.0 && not (is_list_changed x.1.method)

-- A list of the method `m` was announced.
abbrev pub Announced : Profile → Bytes → List (Bytes × Notification) → Type 0
Announced p m ns =
    (x : Bytes × Notification) × In x ns
    × (allows_server p x.0 ≡ true)
    × (is_list_changed x.1.method ≡ true)
    × (x.1.method ≡ m)

-- The notifications that are forwarded as they are, in order.
abbrev pub forwarded : Profile → List (Bytes × Notification) → List Notification
forwarded p ns = map (λ x. x.1) (keep (passes p) ns)

abbrev pub sending : List (Bytes × Notification) → List Happening
sending ns = map (λ x. sends x.0 x.1) ns

module _ (p : Profile) where
  run-append : (o : Outbox) (hs ks : List Happening) → run p o (hs ++ ks) ≡ run p (run p o hs) ks
  unfolding run
  run-append o [] ks = refl
  run-append o (h ∷ hs) ks = run-append (step p o h) hs ks

  flush_lem :
      (o : Outbox)
      → o.client_notify ≡ true
      → flush o
        ≡ record o { pending = []; timer = false; emitted = o.emitted ++ map note o.pending }
  unfolding flush
  flush_lem o c =
      ground (arith, emit_each_lem o.pending (record o { pending = []; timer = false }), c)

  same_pending :
      {u : List Bytes} (v : List Bytes) (m : Bytes) (x : Bytes × Notification)
      → u ≡ v
      → (Announced p m (x ∷ []) → In m v)
      → In m u ↔ (In m v ⊎ Announced p m (x ∷ []))
  same_pending v m x e f =
      (λ i. inl (subst (In m) e i), λ h. subst (In m) (sym e) (elim h [ inl i ↦ i | inr a ↦ f a ]))

  one_more :
      {u : List Bytes} (v : List Bytes) (m : Bytes) (x : Bytes × Notification)
      → u ≡ v ++ (x.1.method ∷ [])
      → allows_server p x.0 ≡ true
      → is_list_changed x.1.method ≡ true
      → In m u ↔ (In m v ⊎ Announced p m (x ∷ []))
  one_more v m x e h l = (
    λ i. elim (In-append m v (x.1.method ∷ []) (subst (In m) e i)) [
      | inl j ↦ inl j
      | inr (inl q) ↦ inr (x, inl refl, h, l, sym q)
      | inr (inr z) ↦ absurd z
    ],
    λ i. subst (In m) (sym e) (elim i [
      | inl j ↦ In-append_left m v (x.1.method ∷ []) j
      | inr (y, inl q, _, _, n) ↦
          In-append_right m v (x.1.method ∷ []) (inl (sym n ∙ ap (λ z. z.1.method) q))
      | inr (y, inr z, _, _, _) ↦ absurd z
    ]),
  )

  -- One notification.
  step-sends :
      (o : Outbox) (x : Bytes × Notification)
      → o.client_notify ≡ true
      → let u = step p o (sends x.0 x.1) in
        (u.client_notify ≡ true)
        × (u.emitted ≡ o.emitted ++ forwarded p (x ∷ []))
        × ((m : Bytes) → In m u.pending ↔ (In m o.pending ⊎ Announced p m (x ∷ [])))
  unfolding step on_upstream_notification emit_raw schedule
  step-sends o x c = elim (Bool-cases (allows_server p x.0)) [
    | inr out ↦ (
      ground arith,
      ground (arith, append-nil o.emitted),
      λ m. same_pending o.pending m x (ground arith) (λ (y, i, h, _, _). elim i [
        | inl q ↦ absurd (false≢true (sym out ∙ ap (λ z. allows_server p z.0) (sym q) ∙ h))
        | inr z ↦ absurd z
      ]),
    )
    | inl here ↦ elim (Bool-cases (is_list_changed x.1.method)) [
      | inr plain ↦ (
        ground arith,
        ground arith,
        λ m. same_pending o.pending m x (ground arith) (λ (y, i, _, h, _). elim i [
          | inl q ↦
              absurd (false≢true (sym plain ∙ ap (λ z. is_list_changed z.1.method) (sym q) ∙ h))
          | inr z ↦ absurd z
        ]),
      )
      | inl lists ↦ elim (Bool-cases (any (equal x.1.method) o.pending)) [
        | inl again ↦ (
          ground arith,
          ground (arith, append-nil o.emitted),
          λ m. same_pending o.pending m x (ground arith) (λ (y, i, _, _, n). elim i [
            | inl q ↦
                subst (λ z. In z o.pending) (ap (λ z. z.1.method) (sym q) ∙ n)
                  (waiting x.1.method o.pending again)
            | inr z ↦ absurd z
          ]),
        )
        | inr first ↦ (
          ground arith,
          ground (arith, append-nil o.emitted),
          λ m. one_more o.pending m x (ground arith) here lists,
        )
      ]
    ]
  ]

  Announced-split :
      (m : Bytes) (x : Bytes × Notification) (ns : List (Bytes × Notification))
      → Announced p m (x ∷ ns) ↔ (Announced p m (x ∷ []) ⊎ Announced p m ns)
  Announced-split m x ns = (
    λ (y, i, h, l, n). elim i [ inl q ↦ inl (y, inl q, h, l, n) | inr j ↦ inr (y, j, h, l, n) ],
    λ a. elim a [
      | inl (y, inl q, h, l, n) ↦ (y, inl q, h, l, n)
      | inl (y, inr z, _, _, _) ↦ absurd z
      | inr (y, j, h, l, n) ↦ (y, inr j, h, l, n)
    ],
  )

  forwarded-split :
      (x : Bytes × Notification) (ns : List (Bytes × Notification))
      → forwarded p (x ∷ ns) ≡ forwarded p (x ∷ []) ++ forwarded p ns
  forwarded-split x ns = ground arith

  run-sending :
      (o : Outbox) (ns : List (Bytes × Notification))
      → o.client_notify ≡ true
      → let u = run p o (sending ns) in
        (u.client_notify ≡ true)
        × (u.emitted ≡ o.emitted ++ forwarded p ns)
        × ((m : Bytes) → In m u.pending ↔ (In m o.pending ⊎ Announced p m ns))
  unfolding run
  run-sending o [] c = (
    c,
    sym (append-nil o.emitted),
    λ m. (λ i. inl i, λ h. elim h [ inl i ↦ i | inr (y, z, _, _, _) ↦ absurd z ]),
  )
  run-sending o (x ∷ ns) c =
      let (c1, e1, q1) = step-sends o x c in
      let (c2, e2, q2) = run-sending (step p o (sends x.0 x.1)) ns c1 in
      (
        c2,
        e2
            ∙ ap (λ z. z ++ forwarded p ns) e1
            ∙ append_assoc o.emitted (forwarded p (x ∷ [])) (forwarded p ns)
            ∙ ap (λ z. o.emitted ++ z) (sym (forwarded-split x ns)),
        λ m. (
          λ i. elim ((q2 m).0 i) [
            | inl j ↦ elim ((q1 m).0 j) [
              | inl k ↦ inl k
              | inr a ↦ inr ((Announced-split m x ns).1 (inl a))
            ]
            | inr a ↦ inr ((Announced-split m x ns).1 (inr a))
          ],
          λ h. (q2 m).1 (elim h [
            | inl k ↦ inl ((q1 m).1 (inl k))
            | inr a ↦ elim ((Announced-split m x ns).0 a) [
              | inl b ↦ inl ((q1 m).1 (inr b))
              | inr b ↦ inr b
            ]
          ]),
        ),
      )

  fires_lem :
      (o : Outbox)
      → IsCoalescing o
      → o.client_notify ≡ true
      → (step p o fires).emitted ≡ o.emitted ++ map note o.pending
  unfolding step
  fires_lem o h c = elim (Bool-cases (is_nil o.pending)) [
    | inl e ↦ ground (arith, h.armed, append-nil o.emitted)
    | inr e ↦ ground (arith, h.armed, flush_lem o c)
  ]

  -- One window, for a client that is connected and with nothing waiting before it: once the timer has
  -- fired, the client has got every notification of an allowed server that announces no list, as it
  -- was and in order, and then each method announced by an allowed server exactly once, without parameters.
  pub window_lem :
      (o : Outbox) (ns : List (Bytes × Notification))
      → o.client_notify ≡ true
      → o.pending ≡ []
      → o.timer ≡ false
      → (ms : List Bytes) × Unique ms
        × ((m : Bytes) → In m ms ↔ Announced p m ns)
        × ((run p o (sending ns ++ (fires ∷ []))).emitted
            ≡ (o.emitted ++ forwarded p ns) ++ map note ms)
  unfolding run
  window_lem o ns c q t =
      let u = run p o (sending ns) in
      let (c2, e2, q2) = run-sending o ns c in
      let k =
        run-IsCoalescing_from p o (sending ns)
          (record { unique = subst Unique (sym q) tt; armed = ground arith }) in
      (
        u.pending,
        k.unique,
        λ m. (
          λ i. elim ((q2 m).0 i) [ inl j ↦ absurd (subst (In m) q j) | inr a ↦ a ],
          λ a. (q2 m).1 (inr a),
        ),
        ap (λ z. z.emitted) (run-append o (sending ns) (fires ∷ []))
            ∙ fires_lem u k c2
            ∙ ap (λ z. z ++ map note u.pending) e2,
      )
