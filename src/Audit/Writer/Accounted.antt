-- ===== src/Audit/Writer/Accounted.antt =====
-- What becomes of each event.
use mathlib.Core.List.{append_assoc, append-nil}
use garmx.Prelude.{
  ℕ, ◌+◌, ◌≡◌, refl, sym, ap, ◌∙◌, subst, Bool, true, false, not, ◌&&◌, ◌||◌, List, [], ◌∷◌, ◌++◌,
  map, length, is_nil, if◌then◌else◌, ltb, leb, arith, if_both, if_cases, length-append,
}
use garmx.Aggregator.Event.{Event}
use garmx.Audit.Entry.{LogEntry, Writer, to_entry}
use garmx.Audit.Writer.{
  Queue, new_writer, offer, record_event, flush_batch, receive_from, receive, tick, begin_drain,
  drain_from, drain_into, finish, Happening, records, resumes, receives, ticks, closes, stops,
  drains, finishes, step, run,
}

-- The first list is the second with some entries left out, in the same order.
pub data Sub {A : Type 0} : List A → List A → Type 0 where
  none_left : Sub [] []
  keeps : {x : A} {xs ys : List A} → Sub xs ys → Sub (x ∷ xs) (x ∷ ys)
  skips : {y : A} {xs ys : List A} → Sub xs ys → Sub xs (y ∷ ys)

Sub-keep_last :
    {A : Type 0} {xs ys : List A} (e : A) → Sub xs ys → Sub (xs ++ (e ∷ [])) (ys ++ (e ∷ []))
Sub-keep_last e none_left = keeps none_left
Sub-keep_last e (keeps s) = keeps (Sub-keep_last e s)
Sub-keep_last e (skips s) = skips (Sub-keep_last e s)

Sub-skip_last : {A : Type 0} {xs ys : List A} (e : A) → Sub xs ys → Sub xs (ys ++ (e ∷ []))
Sub-skip_last e none_left = skips none_left
Sub-skip_last e (keeps s) = keeps (Sub-skip_last e s)
Sub-skip_last e (skips s) = skips (Sub-skip_last e s)

-- The rows of the batches that left the writer.
abbrev pub rows : List (Bool × List LogEntry) → List LogEntry
rows [] = []
rows (b ∷ bs) = b.1 ++ rows bs

rows-append : (bs cs : List (Bool × List LogEntry)) → rows (bs ++ cs) ≡ rows bs ++ rows cs
rows-append [] cs = refl
rows-append (b ∷ bs) cs =
    ap (λ z. b.1 ++ z) (rows-append bs cs) ∙ sym (append_assoc b.1 (rows bs) (rows cs))

map-append : {A B : Type 0} (f : A → B) (xs ys : List A) → map f (xs ++ ys) ≡ map f xs ++ map f ys
map-append f [] ys = refl
map-append f (x ∷ xs) ys = ap (◌∷◌ (f x)) (map-append f xs ys)

is_nil_nil : {A : Type 0} (xs : List A) → is_nil xs ≡ true → xs ≡ []
is_nil_nil [] h = refl
is_nil_nil (x ∷ xs) h = ground arith

module _ (w : Writer) where
  -- What a happening offers to the channel.
  abbrev offers : Queue → Happening w → List Event
  offers q (records e) = if q.stopped then [] else e ∷ []
  offers q (resumes e) = e ∷ []
  offers q (receives first second) = []
  offers q (ticks first second) = []
  offers q closes = []
  offers q stops = []
  offers q drains = []
  offers q (finishes first second) = []

  -- What a history offers, from a state on.
  abbrev pub offered : Queue → List (Happening w) → List Event
  offered q [] = []
  offered q (h ∷ hs) = offers q h ++ offered (step w q h) hs

  -- The rows that left, those in the batch, and those that the channel still holds.
  abbrev pub entries : Queue → List LogEntry
  entries q = rows q.flushed ++ (q.batch ++ map (to_entry w) q.events)

  -- The rows are those of the events that were kept, in order, and each one left out was counted.
  pub record Accounts (given : List Event) (q : Queue) : Type 0 where
    pub kept : List Event
    pub in_order : Sub kept given
    pub counted : length kept + (q.warned + q.dropped) ≡ length given
    pub written : entries q ≡ map (to_entry w) kept

  flush_batch-entries :
      (first second : Bool) (q : Queue) → entries (flush_batch first second q) ≡ entries q
  unfolding flush_batch
  flush_batch-entries first second q =
      if_cases (λ z. entries z ≡ entries q) (is_nil q.batch) (λ _. refl)
        (λ _.
          ap (λ z. z ++ map (to_entry w) q.events)
            (rows-append q.flushed ((first || second, q.batch) ∷ [])
              ∙ ap (λ z. rows q.flushed ++ z) (append-nil q.batch))
          ∙ append_assoc (rows q.flushed) q.batch (map (to_entry w) q.events))

  flush_batch-counts :
      (first second : Bool) (q : Queue)
      → (flush_batch first second q).warned + (flush_batch first second q).dropped
        ≡ q.warned + q.dropped
  unfolding flush_batch
  flush_batch-counts first second q = ground arith

  -- A step that offers nothing and keeps the rows and the counts.
  same :
      {given : List Event} {p q : Queue}
      → entries p ≡ entries q
      → p.warned + p.dropped ≡ q.warned + q.dropped
      → Accounts given q
      → Accounts given p
  same e c a = record {
    kept = a.kept;
    in_order = a.in_order;
    counted = ap (λ z. length a.kept + z) c ∙ a.counted;
    written = e ∙ a.written;
  }

  flush_batch-Accounts :
      {given : List Event} (first second : Bool) (q : Queue)
      → Accounts given q
      → Accounts given (flush_batch first second q)
  flush_batch-Accounts first second q a =
      same (flush_batch-entries first second q) (flush_batch-counts first second q) a

  offer-Accounts :
      (given : List Event) (e : Event) (q : Queue)
      → Accounts given q
      → Accounts (given ++ (e ∷ [])) (offer e q)
  unfolding offer
  offer-Accounts given e q a =
      if_both (Accounts (given ++ (e ∷ []))) (ltb (length q.events) q.capacity)
        (record {
          kept = a.kept ++ (e ∷ []);
          in_order = Sub-keep_last e a.in_order;
          counted =
              omega (arith, a.counted, length-append a.kept (e ∷ []), length-append given (e ∷ []));
          written =
              ap (λ z. rows q.flushed ++ (q.batch ++ z)) (map-append (to_entry w) q.events (e ∷ []))
              ∙ ap (λ z. rows q.flushed ++ z)
                  (sym (append_assoc q.batch (map (to_entry w) q.events) (to_entry w e ∷ [])))
              ∙ sym (
                  append_assoc (rows q.flushed) (q.batch ++ map (to_entry w) q.events)
                    (to_entry w e ∷ []))
              ∙ ap (λ z. z ++ (to_entry w e ∷ [])) a.written
              ∙ sym (map-append (to_entry w) a.kept (e ∷ []));
        })
        (record {
          kept = a.kept;
          in_order = Sub-skip_last e a.in_order;
          counted = omega (arith, a.counted, length-append given (e ∷ []));
          written = a.written;
        })

  receive_from-Accounts :
      {given : List Event} (first second : Bool) (es : List Event) (q : Queue)
      → es ≡ q.events
      → Accounts given q
      → Accounts given (receive_from w first second es q)
  unfolding receive_from
  receive_from-Accounts first second [] q s a = a
  receive_from-Accounts {given} first second (e ∷ rest) q s a =
      let taken = record q { events = rest; batch = q.batch ++ (to_entry w e ∷ []) } in
      let moved : entries taken ≡ entries q =
        ap (λ z. rows q.flushed ++ z)
          (append_assoc q.batch (to_entry w e ∷ []) (map (to_entry w) rest)
            ∙ ap (λ es. q.batch ++ map (to_entry w) es) s) in
      let kept_all : Accounts given taken = same moved refl a in
      if_both (Accounts given) (leb taken.batch_size (length taken.batch))
        (flush_batch-Accounts first second taken kept_all) kept_all

  drain_from-entries :
      (es : List Event) (q : Queue) → es ≡ q.events → entries (drain_from w es q) ≡ entries q
  unfolding drain_from
  drain_from-entries [] q s = refl
  drain_from-entries (e ∷ rest) q s =
      ap (λ z. rows q.flushed ++ z)
        (append_assoc q.batch (to_entry w e ∷ []) (map (to_entry w) rest)
          ∙ ap (λ es. q.batch ++ map (to_entry w) es) s)

  drain_from-counts :
      (es : List Event) (q : Queue)
      → (drain_from w es q).warned + (drain_from w es q).dropped ≡ q.warned + q.dropped
  unfolding drain_from
  drain_from-counts [] q = refl
  drain_from-counts (e ∷ rest) q = refl

  recorded-Accounts :
      (given : List Event) (e : Event) (q : Queue) (stopped : Bool)
      → Accounts given q
      → Accounts (given ++ (if stopped then [] else e ∷ [])) (if stopped then q else offer e q)
  recorded-Accounts given e q true a = subst (λ g. Accounts g q) (sym (append-nil given)) a
  recorded-Accounts given e q false a = offer-Accounts given e q a

  step-Accounts :
      (given : List Event) (q : Queue) (h : Happening w)
      → Accounts given q
      → Accounts (given ++ offers q h) (step w q h)
  unfolding step record_event receive tick begin_drain drain_into finish
  step-Accounts given q (records e) a = recorded-Accounts given e q q.stopped a
  step-Accounts given q (resumes e) a = offer-Accounts given e q a
  step-Accounts given q (receives first second) a =
      subst (λ g. Accounts g (step w q (receives first second))) (sym (append-nil given))
        (if_both (Accounts given) (q.running && not q.draining)
          (receive_from-Accounts first second q.events q refl a) a)
  step-Accounts given q (ticks first second) a =
      let done = flush_batch first second q in
      subst (λ g. Accounts g (step w q (ticks first second))) (sym (append-nil given))
        (if_both (Accounts given) (q.running && not q.draining)
          (same {q = done} refl (omega arith) (flush_batch-Accounts first second q a)) a)
  step-Accounts given q closes a =
      subst (λ g. Accounts g (step w q closes)) (sym (append-nil given)) (same refl refl a)
  step-Accounts given q stops a =
      subst (λ g. Accounts g (step w q stops)) (sym (append-nil given))
        (if_both (Accounts given) (q.running && q.stopped) (same refl refl a) a)
  step-Accounts given q drains a =
      subst (λ g. Accounts g (step w q drains)) (sym (append-nil given))
        (if_both (Accounts given) (q.running && q.draining)
          (same (drain_from-entries q.events q refl) (drain_from-counts q.events q) a) a)
  step-Accounts given q (finishes first second) a =
      subst (λ g. Accounts g (step w q (finishes first second))) (sym (append-nil given))
        (if_both (Accounts given) (q.running && (q.draining && is_nil q.events))
          (flush_batch-Accounts first second (record q { running = false; draining = false })
            (same {q = q} refl refl a))
          a)

  run-Accounts :
      (given : List Event) (q : Queue) (hs : List (Happening w))
      → Accounts given q
      → Accounts (given ++ offered q hs) (run w q hs)
  unfolding run
  run-Accounts given q [] a = subst (λ g. Accounts g q) (sym (append-nil given)) a
  run-Accounts given q (h ∷ hs) a =
      subst (λ g. Accounts g (run w (step w q h) hs))
        (append_assoc given (offers q h) (offered (step w q h) hs))
        (run-Accounts (given ++ offers q h) (step w q h) hs (step-Accounts given q h a))

  -- At every moment, the rows of the batches that left the writer, those of the current batch and
  -- those that the channel holds are, in this order, the rows of the events offered so far, less as
  -- many as were counted as dropped: none is made up, doubled, moved or lost without being counted.
  pub all_accounted :
      (buffer_size batch_size : ℕ) (hs : List (Happening w))
      → Accounts
          (offered (new_writer buffer_size batch_size) hs)
          (run w (new_writer buffer_size batch_size) hs)
  unfolding new_writer
  all_accounted buffer_size batch_size hs =
      run-Accounts [] (new_writer buffer_size batch_size) hs
        (record { kept = []; in_order = none_left; counted = refl; written = refl })

  -- The writer is done: the loop has returned, nothing waits, and nothing more is taken.
  pub record IsDone (q : Queue) : Type 0 where
    pub returned : q.running ≡ false
    pub no_events : q.events ≡ []
    pub no_batch : q.batch ≡ []
    pub takes_none : (e : Event) → record_event e q ≡ q

  -- What happens to a running loop from `Close` on, if it takes what waits in the channel.
  abbrev pub last_round : Bool → Bool → Queue → List (Happening w)
  last_round first second q =
      closes ∷ stops ∷ (map (λ e. drains) q.events ++ (finishes first second ∷ []))

  -- The rounds of `drainInto`, and the end.
  drained :
      (first second : Bool) (es : List Event) (q : Queue)
      → q.events ≡ es
      → q.running ≡ true
      → q.draining ≡ true
      → run w q (map (λ e. drains) es ++ (finishes first second ∷ []))
        ≡ flush_batch first second (record q {
          events = [];
          batch = q.batch ++ map (to_entry w) es;
          running = false;
          draining = false;
        })
  unfolding run step drain_into drain_from finish
  drained first second [] q e r d =
      let ended : finish w first second q
          ≡ flush_batch first second (record q { running = false; draining = false }) =
        ground (arith, e, r, d) in
      ended
      ∙ ap
          (λ es.
            flush_batch first second (record q { events = es; running = false; draining = false }))
          e
      ∙ ap
          (λ b.
            flush_batch first second
              (record q { events = []; batch = b; running = false; draining = false }))
          (sym (append-nil q.batch))
  drained first second (x ∷ es) q e r d =
      let on = record q { events = es; batch = q.batch ++ (to_entry w x ∷ []) } in
      let moved : drain_into w q ≡ on = ground (arith, e, r, d) in
      ap (λ z. run w z (map (λ e. drains) es ++ (finishes first second ∷ []))) moved
      ∙ drained first second es on refl r d
      ∙ ap
          (λ b.
            flush_batch first second
              (record q { events = []; batch = b; running = false; draining = false }))
          (append_assoc q.batch (to_entry w x ∷ []) (map (to_entry w) es))

  drained_whole :
      (first second : Bool) (q : Queue)
      → q.running ≡ true
      → run w q (last_round first second q)
        ≡ flush_batch first second (record q {
          events = [];
          batch = q.batch ++ map (to_entry w) q.events;
          running = false;
          stopped = true;
          draining = false;
        })
  unfolding run step begin_drain
  drained_whole first second q r =
      let closed = record q { stopped = true } in
      let begun : begin_drain w closed ≡ record closed { draining = true } = ground (arith, r) in
      ap (λ z. run w z (map (λ e. drains) q.events ++ (finishes first second ∷ []))) begun
      ∙ drained first second q.events (record closed { draining = true }) refl r refl

  -- If the loop is running, `Close` and the loop's last round, in which it drains what waits in the
  -- channel, leave nothing behind: what waited in the channel and in the batch has left in a last
  -- batch, and no later call of `Record` changes the writer.
  pub finish-IsDone :
      (first second : Bool) (q : Queue)
      → q.running ≡ true
      → IsDone (run w q (last_round first second q))
        × (rows (run w q (last_round first second q)).flushed ≡ entries q)
  unfolding run step begin_drain flush_batch record_event
  finish-IsDone first second q r =
      let last = record q {
        events = [];
        batch = q.batch ++ map (to_entry w) q.events;
        running = false;
        stopped = true;
        draining = false;
      } in
      subst Good (sym (drained_whole first second q r)) (
        if_cases Good (is_nil last.batch)
          (λ e. (
            record {
              returned = refl;
              no_events = refl;
              no_batch = is_nil_nil last.batch e;
              takes_none = λ x. refl;
            },
            sym (append-nil (rows q.flushed))
                ∙ ap (λ z. rows q.flushed ++ z) (sym (is_nil_nil last.batch e)),
          ))
          (λ e. (
            record { returned = refl; no_events = refl; no_batch = refl; takes_none = λ x. refl },
            rows-append q.flushed ((first || second, last.batch) ∷ [])
                ∙ ap (λ z. rows q.flushed ++ z) (append-nil last.batch),
          )))
    where
      Good : Queue → Type 0
      Good z = IsDone z × (rows z.flushed ≡ entries q)
