-- ===== src/Upstream/Manager/Startup.antt =====
-- `StartAll`: all or nothing.
use garmx.Prelude.{
  Unique, ◌≡◌, refl, sym, ap, ◌∙◌, subst, true, false, Option, none, some, List, [], ◌∷◌, ◌++◌, In,
  ◌⊎◌, inl, inr, arith, is_some, Bool-cases, Option-cases, In-append_right,
}
use mathlib.Core.Bool.{false≢true}
use mathlib.Core.List.{append_assoc, append-nil}
use garmx.Prelude.Bytes.{Bytes, equal_iff, equal_refl}
use garmx.Upstream.Transport.{Transports}
use garmx.Upstream.Manager.{
  Manager, ManagerError, start_upstream, get, stop_each, stop_until, stop_started, start_names,
  start_all,
}
use garmx.Upstream.Manager.Names.{IsConsistent}

module _ (N : Transports) where
  open N use {World, Transport, start}

  -- The transports of the names start one after the other, each without an error.
  pub data Starts (m : Manager Transport) : List Bytes → World → World → Type 0 where
    done : {w : World} → Starts m [] w w
    one :
        {n : Bytes} {ns : List Bytes} {w v u : World} (t : Transport)
        → get m n ≡ some t
        → start t w ≡ (true, v)
        → Starts m ns v u
        → Starts m (n ∷ ns) w u

  -- Those of `before` started, the next one failed, and exactly those of `before` were stopped.
  pub record Fails (m : Manager Transport) (ns : List Bytes) (w : World) (name : Bytes)
      (final : World) : Type 0 where
    pub before : List Bytes
    pub after : List Bytes
    pub transport : Transport
    pub reached : World
    pub left : World
    pub splits : ns ≡ before ++ (name ∷ after)
    pub starts : Starts m before w reached
    pub found : get m name ≡ some transport
    pub refuses : start transport reached ≡ (false, left)
    pub stopped : final ≡ stop_each N m before left

  stop_until-stop_each :
      (m : Manager Transport) (before after : List Bytes) (name : Bytes) (w : World)
      → (In name before → ⊥)
      → stop_until N m name (before ++ (name ∷ after)) w ≡ stop_each N m before w
  unfolding stop_until stop_each
  stop_until-stop_each m [] after name w h = ground (arith, equal_refl name)
  stop_until-stop_each m (x ∷ before) after name w h =
      let v : World = elim (get m x) [ none ↦ w | some t ↦ N.stop t w ] in
      ground
        (arith, equal_iff x name, h, stop_until-stop_each m before after name v (λ i. h (inr i)))

  -- What `StartAll` comes to: all started and no error, or the error of the first that failed.
  abbrev pub Outcome :
      Manager Transport → List Bytes → World → Option (Option ManagerError × World) → Type 0
  Outcome m ns w r =
      ((u : World) × Starts m ns w u × (r ≡ some (none, u)))
      ⊎ ((name : Bytes) × (u : World) × Fails m ns w name u
          × (r ≡ some (some (start_upstream name), u)))

  Starts-concat :
      {m : Manager Transport} {before : List Bytes} {w u v : World} (n : Bytes) (t : Transport)
      → Starts m before w u
      → get m n ≡ some t
      → start t u ≡ (true, v)
      → Starts m (before ++ (n ∷ [])) w v
  Starts-concat n t done g s = one t g s done
  Starts-concat n t (one t' g' s' rest) g s = one t' g' s' (Starts-concat n t rest g s)

  Unique-not_before :
      (before after : List Bytes) (n : Bytes) → Unique (before ++ (n ∷ after)) → In n before → ⊥
  Unique-not_before [] after n u h = elim h [ ]
  Unique-not_before (x ∷ before) after n u (inl e) =
      u.0 (In-append_right x before (n ∷ after) (inl (sym e)))
  Unique-not_before (x ∷ before) after n u (inr i) = Unique-not_before before after n u.1 i

  module _ (m : Manager Transport) (n : Bytes) (ns : List Bytes) (u : World) (t : Transport)
      (found : get m n ≡ some t) where
    start_names_good :
        (start t u).0 ≡ true → start_names N m (n ∷ ns) u ≡ start_names N m ns (start t u).1
    unfolding start_names
    start_names_good good = ground arith

    start_names_bad :
        (start t u).0 ≡ false
        → start_names N m (n ∷ ns) u
          ≡ some (some (start_upstream n), stop_until N m n m.order (start t u).1)
    unfolding start_names stop_started
    start_names_bad bad = ground arith

  -- The loop at `ns`, with `before` started.
  start_names-Outcome :
      (m : Manager Transport) (before ns : List Bytes) (w u : World)
      → IsConsistent m
      → m.order ≡ before ++ ns
      → Starts m before w u
      → Outcome m m.order w (start_names N m ns u)
  unfolding start_names
  start_names-Outcome m before [] w u c e s =
      inl (u, subst (λ ns. Starts m ns w u) (sym (e ∙ append-nil before)) s, refl)
  start_names-Outcome m before (n ∷ ns) w u c e s =
      let listed : In n m.order =
        subst (In n) (sym e) (In-append_right n before (n ∷ ns) (inl refl)) in
      elim (Option-cases (get m n)) [
        | inl missing ↦ absurd (false≢true (ap is_some (sym missing) ∙ c.registered n listed))
        | inr (t, g) ↦ elim (Bool-cases (start t u).0) [
          | inl good ↦
              let v = (start t u).1 in
              subst (Outcome m m.order w) (sym (start_names_good m n ns u t g good)) (
                start_names-Outcome m (before ++ (n ∷ [])) ns w v c
                  (e ∙ sym (append_assoc before (n ∷ []) ns))
                  (Starts-concat n t s g (ground arith)))
          | inr bad ↦
              let v = (start t u).1 in
              let fresh : In n before → ⊥ =
                Unique-not_before before ns n (subst Unique e c.unique) in
              let halted : stop_until N m n m.order v ≡ stop_each N m before v =
                ap (λ o. stop_until N m n o v) e ∙ stop_until-stop_each m before ns n v fresh in
              inr (
                n,
                stop_until N m n m.order v,
                record {
                  before = before;
                  after = ns;
                  transport = t;
                  reached = u;
                  left = v;
                  splits = e;
                  starts = s;
                  found = g;
                  refuses = ground arith;
                  stopped = halted;
                },
                start_names_bad m n ns u t g bad,
              )
        ]
      ]

  -- On a consistent manager `StartAll` always returns. Either every transport started, in order, and
  -- there is no error; or the error names one whose start failed, those before it in the order had
  -- all started, and the final state is that of stopping exactly those, in order.
  pub start_all-Outcome :
      (m : Manager Transport) (w : World) → IsConsistent m → Outcome m m.order w (start_all N m w)
  unfolding start_all
  start_all-Outcome m w c = start_names-Outcome m [] m.order w w c refl done
