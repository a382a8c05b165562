-- ===== src/Audit/Writer.antt =====
-- The queue of internal/audit/audit.go: `NewWriter`, `Record`, the loop and `Close`. A history is a
-- list of what happens. An insertion is a transaction, so one that fails stores nothing; whether it
-- fails is part of the history.
pub mod Accounted
pub mod Bounds
use garmx.Prelude.{
  ℕ, zero, suc, ◌+◌, Bool, true, false, not, ◌&&◌, ◌||◌, List, [], ◌∷◌, ◌++◌, map, length, is_nil,
  if◌then◌else◌, ltb, leb,
}
use garmx.Aggregator.Event.{Event}
use garmx.Audit.Entry.{LogEntry, Writer, to_entry}

abbrev pub default_buffer_size : ℕ
default_buffer_size = 1024

abbrev pub default_batch_size : ℕ
default_batch_size = 100

-- `events` is the channel's buffer. `flushed` are the batches that left the writer, each with whether
-- it was inserted; `running` says that the loop has not returned, and `draining` that it is in
-- `drainInto`; `warned` counts the drops that a warning has reported, `dropped` those since.
pub record Queue : Type 0 where
  pub capacity : ℕ
  pub batch_size : ℕ
  pub events : List Event
  pub batch : List LogEntry
  pub flushed : List (Bool × List LogEntry)
  pub dropped : ℕ
  pub warned : ℕ
  pub stopped : Bool
  pub running : Bool
  pub draining : Bool

-- A size of 0 or less in the options is the default.
abbrev pub size_or : ℕ → ℕ → ℕ
size_or n default_size = if ltb 0 n then n else default_size

unfoldable pub new_writer : ℕ → ℕ → Queue
new_writer buffer_size batch_size = record {
  capacity = size_or buffer_size default_buffer_size;
  batch_size = size_or batch_size default_batch_size;
  events = [];
  batch = [];
  flushed = [];
  dropped = 0;
  warned = 0;
  stopped = false;
  running = true;
  draining = false;
}

-- The send of `Record`, which does not block.
unfoldable pub offer : Event → Queue → Queue
offer e q =
    if ltb (length q.events) q.capacity
    then record q { events = q.events ++ (e ∷ []) }
    else record q { dropped = q.dropped + 1 }

-- `Record`
unfoldable pub record_event : Event → Queue → Queue
unfolding offer
record_event e q = if q.stopped then q else offer e q

-- `flush`, where the first and the second insertion succeed or not.
unfoldable pub flush_batch : Bool → Bool → Queue → Queue
flush_batch first second q =
    if is_nil q.batch
    then q
    else record q { batch = []; flushed = q.flushed ++ ((first || second, q.batch) ∷ []) }

module _ (w : Writer) where
  -- The case of the loop that receives an event, at what the channel holds; with nothing in it the
  -- case does not run.
  unfoldable pub receive_from : Bool → Bool → List Event → Queue → Queue
  unfolding flush_batch
  receive_from first second [] q = q
  receive_from first second (e ∷ rest) q =
      let taken = record q { events = rest; batch = q.batch ++ (to_entry w e ∷ []) } in
      if leb taken.batch_size (length taken.batch) then flush_batch first second taken else taken

  unfoldable pub receive : Bool → Bool → Queue → Queue
  unfolding receive_from
  receive first second q =
      if q.running && not q.draining then receive_from first second q.events q else q

  -- The case of the ticker.
  unfoldable pub tick : Bool → Bool → Queue → Queue
  unfolding flush_batch
  tick first second q =
      let done = flush_batch first second q in
      if q.running && not q.draining
      then record done { dropped = 0; warned = done.warned + done.dropped }
      else q

  -- The case of `stop`: from here on, the loop only drains.
  unfoldable pub begin_drain : Queue → Queue
  begin_drain q = if q.running && q.stopped then record q { draining = true } else q

  -- A round of `drainInto`, at what the channel holds. The batch grows past its size if need be.
  unfoldable pub drain_from : List Event → Queue → Queue
  drain_from [] q = q
  drain_from (e ∷ rest) q = record q { events = rest; batch = q.batch ++ (to_entry w e ∷ []) }

  unfoldable pub drain_into : Queue → Queue
  unfolding drain_from
  drain_into q = if q.running && q.draining then drain_from q.events q else q

  -- `drainInto` finds nothing more: the last flush, and the loop returns.
  unfoldable pub finish : Bool → Bool → Queue → Queue
  unfolding flush_batch
  finish first second q =
      if q.running && (q.draining && is_nil q.events)
      then flush_batch first second (record q { running = false; draining = false })
      else q

  -- `resumes` is a `Record` that found the writer not closed and sends only later. `closes` closes
  -- `stop`, which the loop sees at `stops`.
  pub data Happening : Type 0 where
    records : Event → Happening
    resumes : Event → Happening
    receives : Bool → Bool → Happening
    ticks : Bool → Bool → Happening
    closes : Happening
    stops : Happening
    drains : Happening
    finishes : Bool → Bool → Happening

  unfoldable pub step : Queue → Happening → Queue
  unfolding record_event offer receive tick begin_drain drain_into finish
  step q (records e) = record_event e q
  step q (resumes e) = offer e q
  step q (receives first second) = receive first second q
  step q (ticks first second) = tick first second q
  step q closes = record q { stopped = true }
  step q stops = begin_drain q
  step q drains = drain_into q
  step q (finishes first second) = finish first second q

  unfoldable pub run : Queue → List Happening → Queue
  unfolding step
  run q [] = q
  run q (h ∷ hs) = run (step q h) hs
