-- ===== src/Aggregator/Notify.antt =====
-- internal/aggregator/notify.go, and what aggregator.go does with notifications of the upstreams.
-- The timer is armed or not; its firing is a step. Each step runs under the mutexes.
pub mod Coalescing
pub mod Window
use garmx.Prelude.{
  ℕ, ◌+◌, Bool, true, false, not, Option, none, some, List, [], ◌∷◌, ◌++◌, map, any, is_nil,
  if◌then◌else◌,
}
use garmx.Prelude.Bytes.{Bytes, equal}
use garmx.Prelude.Json.{absent}
use garmx.Mcp.Message.{Notification, new_notification}
use garmx.Aggregator.Profile.{Profile, allows_server}
use garmx.Aggregator.Handlers.{is_list_changed}

-- The notifier's fields, the client's callback, and what that was called with: `pending` are the keys
-- of the map, `timer` says whether the timer is not nil.
pub record Outbox : Type 0 where
  pub pending : List Bytes
  pub timer : Bool
  pub client_notify : Bool
  pub emitted : List Notification

abbrev pub new_outbox : Outbox
new_outbox = record { pending = []; timer = false; client_notify = false; emitted = [] }

unfoldable pub set_client_notifier : Outbox → Outbox
set_client_notifier o = record o { client_notify = true }

unfoldable pub emit_raw : Notification → Outbox → Outbox
emit_raw n o = if o.client_notify then record o { emitted = o.emitted ++ (n ∷ []) } else o

unfoldable pub emit_to_client : Bytes → Outbox → Outbox
unfolding emit_raw
emit_to_client method o = emit_raw (new_notification method absent) o

-- The first method queued arms the timer.
unfoldable pub schedule : Bytes → Outbox → Outbox
schedule method o = record o {
  pending = if any (equal method) o.pending then o.pending else o.pending ++ (method ∷ []);
  timer = true;
}

unfoldable pub emit_each : List Bytes → Outbox → Outbox
unfolding emit_to_client
emit_each [] o = o
emit_each (m ∷ ms) o = emit_each ms (emit_to_client m o)

-- Go ranges over the map in no fixed order; here it is that of the first calls.
unfoldable pub flush : Outbox → Outbox
unfolding emit_each
flush o = emit_each o.pending (record o { pending = []; timer = false })

unfoldable pub on_upstream_notification : Profile → Bytes → Notification → Outbox → Outbox
unfolding schedule emit_raw
on_upstream_notification p server n o =
    if not (allows_server p server)
    then o
    else if is_list_changed n.method
    then schedule n.method o
    else emit_raw n o

-- A client registers its callback, an upstream sends, the timer fires.
pub data Happening : Type 0 where
  connects : Happening
  sends : Bytes → Notification → Happening
  fires : Happening

unfoldable pub step : Profile → Outbox → Happening → Outbox
unfolding set_client_notifier on_upstream_notification flush
step p o connects = set_client_notifier o
step p o (sends server n) = on_upstream_notification p server n o
step p o fires = if o.timer then flush o else o

unfoldable pub run : Profile → Outbox → List Happening → Outbox
unfolding step
run p o [] = o
run p o (h ∷ hs) = run p (step p o h) hs
