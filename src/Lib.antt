-- ===== src/Lib.antt =====
-- GarmX is a gateway for the Model Context Protocol (MCP): it starts several upstream MCP servers,
-- shows one client the union of their tools, prompts and resources under prefixed names, and sends
-- each call on to the server it belongs to. A profile narrows what a session sees, and an audit
-- records what it does.
--
-- The parts, and how they interact. A request of the client is an `Envelope`; `handle` of the
-- aggregator dispatches it to a handler. The handshake asks every upstream in scope for its
-- capabilities and merges them; the list handlers drain each upstream's pages and rewrite the
-- names; a call is split into server and original name, checked against the profile, and forwarded
-- through the transport that the manager holds under that name; `resources/read` goes by the
-- owners that the resource lists recorded. Routed calls and, under the scope `all`, the other
-- requests give an event to the sink, which the audit writer redacts, cuts and stores. A transport
-- correlates responses with requests in a map of pending ones. Notifications of upstreams are
-- merged over a window and passed on to the client. The stdio front end reads lines from the client,
-- hands each message to the aggregator and writes the responses and the notifications as lines; the
-- program sets all of this up from its flags and its configuration file. A second command shows the
-- stored entries and their statistics over HTTP.
--
-- Which file models which part:
--   Mcp/Message        pkg/mcp/message.go, pkg/mcp/parse.go: messages, `Parse`, their kinds
--   Mcp/Methods, Mcp/Versions, Mcp/Capabilities, Mcp/Handshake
--                      pkg/mcp/methods.go, pkg/mcp/capabilities.go: names, versions, payloads
--   Mcp/Frame          pkg/mcp/frame.go: `ReadMessage`, `WriteMessage`
--   Upstream/Transport internal/upstream/transport.go: the interface, a parameter
--   Upstream/Manager   internal/upstream/manager.go: `Add`, `StartAll`, `StopAll`, wiring
--   Upstream/Pending   internal/upstream/pending.go: `register`, `resolve`, `cancel`, `closeAll`
--   Upstream/Stdio     internal/upstream/stdio.go: `Send`, `Notify`, `readLoop`, `dispatch`,
--                      `markDown`
--   Aggregator/Naming  internal/aggregator/naming.go: `ValidateServerName`, `Prefix`, `Split`
--   Aggregator/Profile, Aggregator/Capabilities, Aggregator/Event, Aggregator/Helpers
--                      internal/aggregator/profile.go, capabilities.go, session.go and audit.go,
--                      helpers.go
--   Aggregator/Core, Aggregator/Handlers, Aggregator/Dispatch, Aggregator/Setup
--                      internal/aggregator/aggregator.go: the state and its loops, the request
--                      handlers, `Handle`, `dispatch`, `HandleNotification`, and `New`
--   Aggregator/Notify  internal/aggregator/notify.go, and the notification methods of aggregator.go
--   Audit/Redact       internal/audit/redact.go: `NewRedactor`, `Redact`, `walk`
--   Audit/Entry        internal/audit/audit.go: `toEntry`, `capString`
--   Audit/Writer       internal/audit/audit.go: `NewWriter`, `Record`, the loop, `Close`, as steps
--   Config             internal/config/config.go: `validate`, `ResolveAudit`, `FindProfile`
--   Config/Files       internal/config/config.go: `Load`, `DefaultAuditDBPath`, `expandHome`
--   Audit/Store        internal/audit/store.go: `InsertBatch`, `Recent`, `Get`, `scanLog`
--   Audit/Stats        internal/audit/stats.go: `Stats`, `quantile`
--   Api                internal/api/server.go: the handlers and their routes
--   Frontend           internal/frontend/stdio.go: `Serve`, `dispatch`, `pushNotification`
--   Cmd/Flags, Cmd/Setup, Cmd
--                      cmd/garmx/main.go: the flags; `buildUpstreams`, `attachAudit`; `serve`,
--                      `runUI`, `run`
--   Mdlint             internal/mdlint/mdlint.go: `Normalize`, a tool for the documentation
-- The files below these hold the theorems, and Tests what runs at concrete inputs. A Go function
-- `handleNamedCall` is `handle_named_call` here, and so on; a method takes the state it works on
-- and returns it.
--
-- How it is modelled. A text is the list of its bytes. A JSON document is a value of `Value`; a
-- `json.RawMessage` is absent, or bytes that are no JSON, or a document whose white space is
-- forgotten. Keys fit the fields of a struct without regard to the case of ASCII letters. Maps are
-- association lists, `map[string]json.RawMessage` is kept in the order in which Go writes it, and
-- where Go ranges over a map in no fixed order the order of registration stands for it. Integers
-- that Go holds in an `int` are natural numbers or, for JSON-RPC codes, integers without a bound;
-- none of them is computed with beyond sums of lengths, differences of times, and the counts and
-- averages of the statistics. What lies behind
-- the transports is the parameter `Transports`: a state of the world, and what each method does to
-- it. `filepath.Match`, the passage of numbers through `float64`, the writing of a document as
-- text, the text of an id, and the paths of the operating system are parameters as well. Handlers
-- run one at a time, as the mutexes make their changes of state do. The audit writer is the one
-- part that runs beside them: its history lists what the callers of `Record`, the loop and `Close`
-- do, in any order. Logging is left out, since nothing reads it.
--
-- A stream is the list of its bytes. A writer takes what it is given or fails, and `bufio`'s
-- `ReadSlice`, the `flag` package and `strconv` are written out as far as the program uses them. The
-- audit store is a table with the meaning that SQL gives to the statements; whether a statement
-- fails is part of the call, and the statements of `Stats` may each find another table. The writer's
-- `drainInto` is a step for each event, so that the batch that outgrows its size is a state. Strings
-- that `json.Marshal` writes are made valid UTF-8 (Prelude/Utf8). The front end's loop is a list of moves: what its `select` takes next,
-- the end of the context, and the pushes of notifications between them. Encoding and decoding JSON
-- as bytes, reading a file, `strings.TrimSpace`, and the constructor of a transport are parameters.
--
-- Fuel. `drain` runs on fuel, the number of pages that it will ask one upstream for: nothing bounds
-- them in the source. A result `none` of `drain`, and of what calls it, says that the fuel ran out:
-- fuel is enough if it is at least the number of the upstream's pages. `ReadMessage` and the loops
-- that read with it run on one more than the bytes that are left, which is always enough: each
-- round takes at least one; the digits of a number run on one more than the number. All other loops
-- go over a list.
--
-- Not modelled. The child process of internal/upstream/stdio.go, its pipes and its signals; how
-- internal/audit/store.go opens a database and migrates it; the templates of internal/ui; signals,
-- the HTTP listener and the closing of the audit writer in cmd/garmx; and tools/mdlint, which reads
-- and writes files.
pub mod Prelude
pub mod Mcp
pub mod Upstream
pub mod Aggregator
pub mod Audit
pub mod Config
pub mod Api
pub mod Frontend
pub mod Cmd
pub mod Mdlint
pub mod Tests
