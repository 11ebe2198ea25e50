-- ===== src/Handler/Writes.antt =====
-- The queue of writes: which PDUs the handler starts to write, and in which order.
use opensmsc.Handler.Responses.{build_unbind_resp}
use opensmsc.Handler.Session.{is_bound}
use mathlib.Core.List.{append-nil, append_assoc}
use opensmsc.Base.{
  List, [], false, if◌then◌else◌, ltb, not, refl, true, ℕ, ◌++◌, ◌-◌, ◌∷◌, ◌≡◌, Text, ap, sym, ◌∙◌,
}
use opensmsc.Handler.State.{
  Handler, Effect, close, on_write, send_pdu, write_started, read_started, authenticator_stopped,
  socket_closed, pop_front, is_empty, enqueue_pdu, do_write, create_handler, handle_unbind, do_read,
  start,
}

-- The PDUs of which a write was started, oldest first.
unfoldable pub started : List Effect → List (List ℕ)
started [] = []
started (write_started pdu ∷ log) = started log ++ (pdu ∷ [])
started (read_started ∷ log) = started log
started (authenticator_stopped id ∷ log) = started log
started (socket_closed ∷ log) = started log

-- The PDUs of the queue of which none was.
abbrev pub waiting : Handler → List (List ℕ)
waiting h = pop_front h.write_queue

-- What happens at the queue: the server sends a PDU, or asio completes the write that is outstanding.
pub data Event : Type 0 where
  sent : List ℕ → Event
  written : Event

abbrev pub completes : Handler → Handler
completes h = if ltb 0 h.writing then on_write false (record h { writing = h.writing - 1 }) else h

abbrev pub happens : Event → Handler → Handler
happens (sent pdu) h = send_pdu pdu h
happens written h = completes h

unfoldable pub happen : List Event → Handler → Handler
happen [] h = h
happen (e ∷ events) h = happen events (happens e h)

unfoldable pub sent_by : List Event → List (List ℕ)
sent_by [] = []
sent_by (sent pdu ∷ events) = pdu ∷ sent_by events
sent_by (written ∷ events) = sent_by events

-- A handler that is not to close, with this queue and this log: a write is outstanding, and in
-- progress, when the queue holds a PDU.
abbrev pub queued : List (List ℕ) → List Effect → Handler → Handler
queued queue log h = record h {
  write_queue = queue;
  write_in_progress = not (is_empty queue);
  close_after_write = false;
  writing = if is_empty queue then 0 else 1;
  log = log;
}

-- The queue and the log after an event.
abbrev pub turn : Event → List (List ℕ) → List Effect → List (List ℕ) × List Effect
turn (sent pdu) [] log = (pdu ∷ [], write_started pdu ∷ log)
turn (sent pdu) (p ∷ queue) log = (p ∷ (queue ++ (pdu ∷ [])), log)
turn written [] log = ([], log)
turn written (p ∷ []) log = ([], log)
turn written (p ∷ next ∷ queue) log = (next ∷ queue, write_started next ∷ log)

happens-queued :
    (e : Event) (queue : List (List ℕ)) (log : List Effect) (h : Handler)
    → happens e (queued queue log h) ≡ queued (turn e queue log).0 (turn e queue log).1 h
unfolding enqueue_pdu do_write on_write
happens-queued (sent pdu) [] log h = refl
happens-queued (sent pdu) (p ∷ queue) log h = refl
happens-queued written [] log h = refl
happens-queued written (p ∷ []) log h = refl
happens-queued written (p ∷ next ∷ queue) log h = refl

abbrev pub added : Event → List (List ℕ)
added (sent pdu) = pdu ∷ []
added written = []

turn_order :
    (e : Event) (queue : List (List ℕ)) (log : List Effect)
    → let (queue', log') = turn e queue log in
      started log' ++ pop_front queue' ≡ started log ++ pop_front queue ++ added e
unfolding started
turn_order (sent pdu) [] log = simp (append-nil)
turn_order (sent pdu) (p ∷ queue) log = simp (append_assoc)
turn_order written [] log = simp (append-nil)
turn_order written (p ∷ []) log = simp (append-nil)
turn_order written (p ∷ next ∷ queue) log = simp (append-nil, append_assoc)

sent_by-cons : (e : Event) (events : List Event) → sent_by (e ∷ events) ≡ added e ++ sent_by events
unfolding sent_by
sent_by-cons (sent pdu) events = refl
sent_by-cons written events = refl

unfoldable turns : List Event → List (List ℕ) → List Effect → List (List ℕ) × List Effect
turns [] queue log = (queue, log)
turns (e ∷ events) queue log = let (queue', log') = turn e queue log in turns events queue' log'

happen-queued :
    (events : List Event) (queue : List (List ℕ)) (log : List Effect) (h : Handler)
    → happen events (queued queue log h)
      ≡ queued (turns events queue log).0 (turns events queue log).1 h
unfolding happen turns
happen-queued [] queue log h = refl
happen-queued (e ∷ events) queue log h =
    ap (happen events) (happens-queued e queue log h) ∙ happen-queued events _ _ h

turns_order :
    (events : List Event) (queue : List (List ℕ)) (log : List Effect)
    → let (queue', log') = turns events queue log in
      started log' ++ pop_front queue' ≡ started log ++ pop_front queue ++ sent_by events
unfolding turns sent_by
turns_order [] queue log = simp (append-nil, sent_by)
turns_order (e ∷ events) queue log =
    let (queue', log') = turn e queue log in
    turns_order events queue' log'
    ∙ ap (λ xs. xs ++ sent_by events) (turn_order e queue log)
    ∙ append_assoc _ (added e) (sent_by events)
    ∙ ap (λ xs. started log ++ pop_front queue ++ xs) (sym (sent_by-cons e events))

-- Writes that complete as often as the queue is long.
unfoldable pub all_written : List (List ℕ) → List Event
all_written [] = []
all_written (p ∷ queue) = written ∷ all_written queue

turns-all_written :
    (queue : List (List ℕ)) (log : List Effect) → (turns (all_written queue) queue log).0 ≡ []
unfolding turns all_written
turns-all_written [] log = refl
turns-all_written (p ∷ []) log = refl
turns-all_written (p ∷ next ∷ queue) log =
    turns-all_written (next ∷ queue) (write_started next ∷ log)

sent_by-all_written : (queue : List (List ℕ)) → sent_by (all_written queue) ≡ []
unfolding sent_by all_written
sent_by-all_written [] = refl
sent_by-all_written (p ∷ queue) = sent_by-all_written queue

started_queued :
    (id : Text)
    → start (create_handler id) ≡ queued [] (read_started ∷ []) (start (create_handler id))
unfolding start create_handler do_read
started_queued id = refl

happen-start :
    (events : List Event) (id : Text)
    → let (queue, log) = turns events [] (read_started ∷ []) in
      happen events (start (create_handler id)) ≡ queued queue log (start (create_handler id))
happen-start events id =
    ap (happen events) (started_queued id)
    ∙ happen-queued events [] (read_started ∷ []) (start (create_handler id))

-- However the sending of PDUs and the completion of writes interleave, after the handler was started and
-- until it is to close: the PDUs whose writes were started, in this order, followed by those that wait
-- in the queue, are all the PDUs that were sent, in the order in which they were sent.
pub sent_in_order :
    (events : List Event) (id : Text)
    → let h = happen events (start (create_handler id)) in
      started h.log ++ waiting h ≡ sent_by events
unfolding started
sent_in_order events id = rw (happen-start events id) (turns_order events [] (read_started ∷ []))

all_written-queued :
    (queue : List (List ℕ)) (log : List Effect) (h : Handler)
    → let h' = happen (all_written queue) (queued queue log h) in
      (started h'.log ≡ started log ++ pop_front queue)
      × (h'.write_queue ≡ [])
      × (h'.writing ≡ 0)
      × (h'.write_in_progress ≡ false)
all_written-queued queue log h =
    let empty = turns-all_written queue log in
    let order = turns_order (all_written queue) queue log in
    rw (happen-queued (all_written queue) queue log h) (
      sym (append-nil _)
          ∙ ap (λ q. started (turns (all_written queue) queue log).1 ++ pop_front q) (sym empty)
          ∙ order
          ∙ ap (λ xs. started log ++ pop_front queue ++ xs) (sent_by-all_written queue)
          ∙ append-nil _,
      empty,
      ap (λ q. if is_empty q then 0 else 1) empty,
      ap (λ q. not (is_empty q)) empty,
    )

-- However the sending of PDUs and the completion of writes interleave after the handler was started,
-- when then as many writes complete as the queue is long: writes of all PDUs that were sent have been
-- started, in the order of the sending, the queue is empty, and no write is outstanding or in progress.
pub all_written_lem :
    (events : List Event) (id : Text)
    → let h = happen events (start (create_handler id)) in
      let h' = happen (all_written h.write_queue) h in
      (started h'.log ≡ sent_by events)
      × (h'.write_queue ≡ [])
      × (h'.writing ≡ 0)
      × (h'.write_in_progress ≡ false)
unfolding started
all_written_lem events id =
    let (queue, log) = turns events [] (read_started ∷ []) in
    let (order, no_queue, none_left, idle) =
      all_written-queued queue log (start (create_handler id)) in
    rw (happen-start events id)
      (order ∙ turns_order events [] (read_started ∷ []), no_queue, none_left, idle)

-- While a write is in progress, an UNBIND that is answered with status 0 loses the answer: when the
-- write completes, the handler closes the socket, and no write was started since the UNBIND came.
pub handle_unbind_busy :
    (seq : ℕ) (h : Handler)
    → is_bound h.session ≡ true
    → h.write_in_progress ≡ true
    → let h' = handle_unbind seq h in
      (h'.write_queue ≡ h.write_queue ++ (build_unbind_resp 0 seq ∷ []))
      × ((on_write false h').log ≡ socket_closed ∷ authenticator_stopped h.session_id ∷ h.log)
unfolding handle_unbind enqueue_pdu on_write close
handle_unbind_busy seq h bound busy = rw (bound, busy) (refl, refl)
