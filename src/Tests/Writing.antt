-- ===== src/Tests/Writing.antt =====
-- The audit writer with a buffer of one event: of three, one is dropped.
use garmx.Prelude.{◌≡◌, refl, true, false, List, [], ◌∷◌}
use garmx.Audit.Writer.{
  Queue, new_writer, Happening, records, resumes, receives, ticks, closes, stops, drains, finishes,
  run,
}
use garmx.Audit.Writer.Bounds.{IsBounded, run-IsBounded}
use garmx.Audit.Writer.Accounted.{
  rows, offered, entries, Accounts, all_accounted, IsDone, finish-IsDone,
}
use garmx.Tests.Records.{writer, call_event}

abbrev busy : List (Happening writer)
busy =
    records call_event
    ∷ records call_event
    ∷ receives true true
    ∷ ticks false false
    ∷ records call_event
    ∷ closes
    ∷ records call_event
    ∷ stops
    ∷ resumes call_event
    ∷ drains
    ∷ drains
    ∷ finishes true true
    ∷ []

run-IsBounded_example : IsBounded 1 (run writer (new_writer 1 0) busy)
run-IsBounded_example = run-IsBounded writer 1 0 busy

all_accounted_example :
    Accounts writer (offered writer (new_writer 1 0) busy) (run writer (new_writer 1 0) busy)
all_accounted_example = all_accounted writer 1 0 busy

abbrev waiting : Queue
waiting = record {
  capacity = 1;
  batch_size = 2;
  events = call_event ∷ [];
  batch = [];
  flushed = [];
  dropped = 3;
  warned = 0;
  stopped = false;
  running = true;
  draining = false;
}

finish-IsDone_example :
    IsDone writer (run writer waiting (closes ∷ stops ∷ drains ∷ finishes true true ∷ []))
    × (rows (run writer waiting (closes ∷ stops ∷ drains ∷ finishes true true ∷ [])).flushed
        ≡ entries writer waiting)
finish-IsDone_example = finish-IsDone writer true true waiting refl
