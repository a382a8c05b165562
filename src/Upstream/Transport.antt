-- ===== src/Upstream/Transport.antt =====
-- internal/upstream/transport.go: the interface `Transport`. An implementation is a parameter: the
-- transports, the state of the world behind them, and what each method does to it.
use garmx.Prelude.{ℕ, Bool}
use garmx.Prelude.Bytes.{Bytes}
use garmx.Prelude.Json.{Raw}
use garmx.Mcp.Message.{Error}

pub data Status : Type 0 where
  unknown online offline : Status

-- What `Send` returns: the raw result, the upstream's JSON-RPC error, or a transport failure.
pub data Reply : Type 0 where
  result : Raw → Reply
  rpc_error : Error → Reply
  failure : Reply

-- A Boolean result says whether the call returned no error. `set_handlers t server` makes `t` hand
-- its notifications to the manager's callback under the name `server`.
pub record Transports : Type 1 where
  pub World : Type 0
  pub Transport : Type 0
  pub start : Transport → World → Bool × World
  pub send : Transport → Bytes → Raw → World → Reply × World
  pub notify : Transport → Bytes → Raw → World → Bool × World
  pub set_handlers : Transport → Bytes → World → World
  pub stop : Transport → World → World
  pub clock : World → ℕ
