-- ===== src/Aggregator/Setup.antt =====
-- `New` and `SetAudit` of internal/aggregator/aggregator.go.
use garmx.Prelude.{Bool, false, Option, none, List, []}
use garmx.Prelude.Bytes.{Bytes}
use garmx.Upstream.Manager.{Manager, set_notification_handler}
use garmx.Aggregator.Profile.{Profile}
use garmx.Aggregator.Capabilities.{no_capabilities}
use garmx.Aggregator.Event.{no_session, Event}
use garmx.Aggregator.Core.{Environment, Aggregator}

module _ (N : Environment) where
  open N use {World, Transport, transports}

  -- The manager's callback is set at once.
  unfoldable pub new_aggregator : Manager Transport → Profile → Bytes → World → Aggregator N
  new_aggregator mgr profile version w =
      let (handled_mgr, w') = set_notification_handler transports mgr w in
      record {
        mgr = handled_mgr;
        profile = profile;
        version = version;
        session = no_session;
        init_done = false;
        caps = no_capabilities;
        uri_owners = [];
        sink = none;
        session_id = [];
        audit_all = false;
        world = w';
      }

  unfoldable pub set_audit : Option (List Event) → Bytes → Bool → Aggregator N → Aggregator N
  set_audit sink session_id audit_all a = record a {
    sink = sink;
    session_id = session_id;
    audit_all = audit_all;
  }
