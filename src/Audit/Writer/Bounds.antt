-- ===== src/Audit/Writer/Bounds.antt =====
-- The writer's memory.
use mathlib.Core.Bool.{false≢true}
use garmx.Prelude.{
  refl, ◌⊎◌, ◌||◌, not, ◌+◌, subst, sym, ap, ◌∙◌, ℕ, ◌≤◌, ◌<◌, ◌≡◌, Bool, true, false, List, [],
  ◌∷◌, ◌++◌, length, is_nil, ltb, leb, arith, if_both, if_cases, length-append, ◌&&◌, inl, inr,
}
use garmx.Aggregator.Event.{Event}
use garmx.Audit.Entry.{LogEntry, Writer, to_entry}
use garmx.Audit.Writer.{
  Queue, new_writer, offer, record_event, flush_batch, receive_from, receive, tick, begin_drain,
  drain_from, drain_into, finish, Happening, records, resumes, receives, ticks, closes, stops,
  drains, finishes, step, run,
}

-- The channel holds no more than its capacity. The batch is not full, unless the loop drains; then,
-- it and the channel hold what may wait when the loop stops, and what `late` sends have added since.
pub record IsBounded (late : ℕ) (q : Queue) : Type 0 where
  pub events_fit : length q.events ≤ q.capacity
  pub batch_fits : (length q.batch < q.batch_size) ⊎ (q.draining ≡ true)
  pub all_fits : length q.batch + length q.events < q.batch_size + q.capacity + late
  pub some_capacity : 0 < q.capacity
  pub some_batch : 0 < q.batch_size
  pub closed_first : (q.draining ≡ false) ⊎ (q.stopped ≡ true)

empty-lt : (xs : List LogEntry) (n : ℕ) → is_nil xs ≡ true → 0 < n → length xs < n
empty-lt [] n e h = h
empty-lt (x ∷ xs) n e h = ground arith

-- From a batch that is not full.
below :
    (late : ℕ) (q : Queue)
    → length q.events ≤ q.capacity
    → length q.batch < q.batch_size
    → 0 < q.capacity
    → 0 < q.batch_size
    → (q.draining ≡ false) ⊎ (q.stopped ≡ true)
    → IsBounded late q
below late q a b c d f = record {
  events_fit = a;
  batch_fits = inl b;
  all_fits = omega (arith, a, b);
  some_capacity = c;
  some_batch = d;
  closed_first = f;
}

flush_batch-IsBounded :
    (first second : Bool) (late : ℕ) (q : Queue)
    → length q.events ≤ q.capacity
    → 0 < q.capacity
    → 0 < q.batch_size
    → (q.draining ≡ false) ⊎ (q.stopped ≡ true)
    → IsBounded late (flush_batch first second q)
unfolding flush_batch
flush_batch-IsBounded first second late q a b z f =
    if_cases (IsBounded late) (is_nil q.batch)
      (λ e. below late q a (empty-lt q.batch q.batch_size e z) b z f)
      (λ e.
        below late
          (record q { batch = []; flushed = q.flushed ++ ((first || second, q.batch) ∷ []) }) a z b
          z f)

-- One more send, which may be late.
offer-IsBounded :
    (late : ℕ) (e : Event) (q : Queue) → IsBounded late q → IsBounded (late + 1) (offer e q)
unfolding offer
offer-IsBounded late e q h =
    if_cases (IsBounded (late + 1)) (ltb (length q.events) q.capacity)
      (λ room. record {
        events_fit = ground (arith, room, length-append q.events (e ∷ []));
        batch_fits = h.batch_fits;
        all_fits = omega (arith, h.all_fits, length-append q.events (e ∷ []));
        some_capacity = h.some_capacity;
        some_batch = h.some_batch;
        closed_first = h.closed_first;
      })
      (λ full. record {
        events_fit = h.events_fit;
        batch_fits = h.batch_fits;
        all_fits = omega (arith, h.all_fits);
        some_capacity = h.some_capacity;
        some_batch = h.some_batch;
        closed_first = h.closed_first;
      })

-- A send while the writer is not closed, and so the loop not draining.
record_event-IsBounded :
    (late : ℕ) (e : Event) (q : Queue) → IsBounded late q → IsBounded late (record_event e q)
unfolding record_event offer
record_event-IsBounded late e q h = elim h.closed_first [
  | inr s ↦
      let same : record_event e q ≡ q = ground (arith, s) in subst (IsBounded late) (sym same) h
  | inl d ↦ elim h.batch_fits [
    | inr draining ↦ absurd (false≢true (sym d ∙ draining))
    | inl b ↦ if_both (IsBounded late) q.stopped h (
        if_cases (IsBounded late) (ltb (length q.events) q.capacity)
          (λ room.
            below late (record q { events = q.events ++ (e ∷ []) })
              (ground (arith, room, length-append q.events (e ∷ []))) b h.some_capacity h.some_batch
              (inl d))
          (λ full.
            below late (record q { dropped = q.dropped + 1 }) h.events_fit b h.some_capacity
              h.some_batch (inl d)))
  ]
]

module _ (w : Writer) where
  receive_from-IsBounded :
      (first second : Bool) (late : ℕ) (es : List Event) (q : Queue)
      → length es ≤ q.capacity
      → IsBounded late q
      → IsBounded late (receive_from w first second es q)
  unfolding receive_from
  receive_from-IsBounded first second late [] q l h = h
  receive_from-IsBounded first second late (e ∷ rest) q l h =
      let taken = record q { events = rest; batch = q.batch ++ (to_entry w e ∷ []) } in
      if_cases (IsBounded late) (leb taken.batch_size (length taken.batch))
        (λ _.
          flush_batch-IsBounded first second late taken (omega (arith, l)) h.some_capacity
            h.some_batch h.closed_first)
        (λ few.
          below late taken (omega (arith, l)) (ground (arith, few)) h.some_capacity h.some_batch
            h.closed_first)

  drain_from-IsBounded :
      (late : ℕ) (es : List Event) (q : Queue)
      → es ≡ q.events
      → q.draining ≡ true
      → IsBounded late q
      → IsBounded late (drain_from w es q)
  unfolding drain_from
  drain_from-IsBounded late [] q s d h = h
  drain_from-IsBounded late (e ∷ rest) q s d h =
      let size : length (e ∷ rest) ≡ length q.events = ap length s in
      record {
        events_fit = omega (arith, h.events_fit, size);
        batch_fits = inr d;
        all_fits = omega (arith, h.all_fits, size, length-append q.batch (to_entry w e ∷ []));
        some_capacity = h.some_capacity;
        some_batch = h.some_batch;
        closed_first = h.closed_first;
      }

  widen : (late more : ℕ) (q : Queue) → late ≤ more → IsBounded late q → IsBounded more q
  widen late more q l h = record {
    events_fit = h.events_fit;
    batch_fits = h.batch_fits;
    all_fits = omega (arith, l, h.all_fits);
    some_capacity = h.some_capacity;
    some_batch = h.some_batch;
    closed_first = h.closed_first;
  }

  -- The sends that a happening adds to the late ones, and how many a history has.
  abbrev lates : Happening w → ℕ
  lates (records e) = 0
  lates (resumes e) = 1
  lates (receives first second) = 0
  lates (ticks first second) = 0
  lates closes = 0
  lates stops = 0
  lates drains = 0
  lates (finishes first second) = 0

  abbrev pub late_sends : List (Happening w) → ℕ
  late_sends [] = 0
  late_sends (h ∷ hs) = lates h + late_sends hs

  tick-IsBounded :
      (first second : Bool) (late : ℕ) (q : Queue)
      → IsBounded late q
      → IsBounded late (tick w first second q)
  unfolding tick
  tick-IsBounded first second late q h =
      let k =
        flush_batch-IsBounded first second late q h.events_fit h.some_capacity h.some_batch
          h.closed_first in
      if_both (IsBounded late) (q.running && not q.draining)
        (record {
          events_fit = k.events_fit;
          batch_fits = k.batch_fits;
          all_fits = k.all_fits;
          some_capacity = k.some_capacity;
          some_batch = k.some_batch;
          closed_first = k.closed_first;
        })
        h

  -- What closes, stops and drains.
  begin_drain-IsBounded :
      (late : ℕ) (q : Queue) → IsBounded late q → IsBounded late (begin_drain w q)
  unfolding begin_drain
  begin_drain-IsBounded late q h =
      if_cases (IsBounded late) (q.running && q.stopped)
        (λ on. record {
          events_fit = h.events_fit;
          batch_fits = inr refl;
          all_fits = h.all_fits;
          some_capacity = h.some_capacity;
          some_batch = h.some_batch;
          closed_first = inr (ground (arith, on));
        })
        (λ off. h)

  step-IsBounded :
      (late : ℕ) (q : Queue) (h : Happening w)
      → IsBounded late q
      → IsBounded (late + lates h) (step w q h)
  unfolding step receive drain_into finish
  step-IsBounded late q (records e) k =
      widen late (late + 0) (record_event e q) (omega arith) (record_event-IsBounded late e q k)
  step-IsBounded late q (resumes e) k = offer-IsBounded late e q k
  step-IsBounded late q (receives first second) k =
      widen late (late + 0) (receive w first second q) (omega arith) (
        if_both (IsBounded late) (q.running && not q.draining)
          (receive_from-IsBounded first second late q.events q k.events_fit k) k)
  step-IsBounded late q (ticks first second) k =
      widen late (late + 0) (tick w first second q) (omega arith)
        (tick-IsBounded first second late q k)
  step-IsBounded late q closes k =
      widen late (late + 0) (record q { stopped = true }) (omega arith)
        (record {
          events_fit = k.events_fit;
          batch_fits = k.batch_fits;
          all_fits = k.all_fits;
          some_capacity = k.some_capacity;
          some_batch = k.some_batch;
          closed_first = inr refl;
        })
  step-IsBounded late q stops k =
      widen late (late + 0) (begin_drain w q) (omega arith) (begin_drain-IsBounded late q k)
  step-IsBounded late q drains k = widen late (late + 0) (drain_into w q) (omega arith) (
      if_cases (IsBounded late) (q.running && q.draining)
        (λ on. drain_from-IsBounded late q.events q refl (ground (arith, on)) k) (λ off. k))
  step-IsBounded late q (finishes first second) k =
      widen late (late + 0) (finish w first second q) (omega arith) (
        if_both (IsBounded late) (q.running && (q.draining && is_nil q.events))
          (flush_batch-IsBounded first second late (record q { running = false; draining = false })
            k.events_fit k.some_capacity k.some_batch (inl refl))
          k)

  run-IsBounded_from :
      (late : ℕ) (q : Queue) (hs : List (Happening w))
      → IsBounded late q
      → IsBounded (late + late_sends hs) (run w q hs)
  unfolding run
  run-IsBounded_from late q [] h = widen late (late + 0) q (omega arith) h
  run-IsBounded_from late q (x ∷ hs) h =
      widen (late + lates x + late_sends hs) (late + late_sends (x ∷ hs)) (run w (step w q x) hs)
        (omega arith)
        (run-IsBounded_from (late + lates x) (step w q x) hs (step-IsBounded late q x h))

  -- Whatever sizes the options ask for and whatever happens, the channel holds no more than its
  -- capacity. The batch stays below its size until the loop drains, which is after `Close`; then,
  -- batch and channel together stay below the batch's size, the channel's capacity and the number of
  -- late sends, those of a `Record` that found the writer not closed before.
  pub run-IsBounded :
      (buffer_size batch_size : ℕ) (hs : List (Happening w))
      → IsBounded (late_sends hs) (run w (new_writer buffer_size batch_size) hs)
  unfolding new_writer
  run-IsBounded buffer_size batch_size hs =
      let q = new_writer buffer_size batch_size in
      widen (0 + late_sends hs) (late_sends hs) (run w q hs) (omega arith) (
        run-IsBounded_from 0 q hs
          (below 0 q (omega arith) (ground arith) (ground arith) (ground arith) (inl refl)))
