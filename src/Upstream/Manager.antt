-- ===== src/Upstream/Manager.antt =====
-- internal/upstream/manager.go. The methods run under the mutex. `World` is the state of what lies
-- behind the transports.
pub mod Names
pub mod Startup
use garmx.Prelude.{
  Bool, true, false, not, Option, none, some, List, [], ◌∷◌, ◌++◌, if◌then◌else◌, is_some,
}
use garmx.Prelude.Bytes.{Bytes, equal}
use garmx.Prelude.Assoc.{lookup, insert, bytes_eq}
use garmx.Upstream.Transport.{Transports}

-- `handled` says that a notification callback is set.
pub record Manager (T : Type 0) : Type 0 where
  pub transports : List (Bytes × T)
  pub order : List Bytes
  pub handled : Bool

abbrev pub new_manager : {T : Type 0} → Manager T
new_manager = record { transports = []; order = []; handled = false }

pub data ManagerError : Type 0 where
  duplicate_upstream_name : Bytes → ManagerError
  start_upstream : Bytes → ManagerError

module _ {T : Type 0} where
  unfoldable pub get : Manager T → Bytes → Option T
  get m name = lookup name m.transports

  abbrev pub names : Manager T → List Bytes
  names m = m.order

module _ (N : Transports) where
  open N use {World, Transport, start, stop, set_handlers}

  abbrev wire : Manager Transport → Bytes → Transport → World → World
  wire m name t w = if m.handled then set_handlers t name w else w

  -- `none` for no error.
  unfoldable pub add :
      Bytes
      → Transport
      → Manager Transport
      → World
      → Option ManagerError × Manager Transport × World
  add name t m w =
      if is_some (lookup name m.transports)
      then (some (duplicate_upstream_name name), m, w)
      else let m' = record m {
        transports = insert name t m.transports;
        order = m.order ++ (name ∷ []);
      } in
        (none, m', wire m' name t w)

  -- Go ranges over the map in no fixed order; here it is that of registration.
  wire_all : Manager Transport → List (Bytes × Transport) → World → World
  wire_all m [] w = w
  wire_all m ((name, t) ∷ ts) w = wire_all m ts (wire m name t w)

  unfoldable pub set_notification_handler : Manager Transport → World → Manager Transport × World
  unfolding wire_all
  set_notification_handler m w =
      let m' = record m { handled = true } in (m', wire_all m' m'.transports w)

  -- Stops the transports of `before`, in order.
  pub stop_each : Manager Transport → List Bytes → World → World
  stop_each m [] w = w
  stop_each m (name ∷ rest) w =
      stop_each m rest (elim (get m name) [ none ↦ w | some t ↦ stop t w ])

  -- The loop of `stopStarted`: up to the failed name.
  pub stop_until : Manager Transport → Bytes → List Bytes → World → World
  stop_until m failed [] w = w
  stop_until m failed (name ∷ rest) w =
      let on = stop_until m failed rest (elim (get m name) [ none ↦ w | some t ↦ stop t w ]) in
      if equal name failed then w else on

  pub stop_started : Manager Transport → Bytes → World → World
  stop_started m failed w = stop_until m failed (names m) w

  -- The loop of `StartAll`. A name with no transport is a call through a nil interface: `none`.
  pub start_names : Manager Transport → List Bytes → World → Option (Option ManagerError × World)
  unfolding stop_started stop_until
  start_names m [] w = some (none, w)
  start_names m (name ∷ rest) w = elim (get m name) [
    | none ↦ none
    | some t ↦
        let (started, w') = start t w in
        if started
        then start_names m rest w'
        else some (some (start_upstream name), stop_started m name w')
  ]

  unfoldable pub start_all : Manager Transport → World → Option (Option ManagerError × World)
  unfolding start_names
  start_all m w = start_names m (names m) w

  unfoldable pub stop_all : Manager Transport → World → World
  unfolding stop_each
  stop_all m w = stop_each m (names m) w
