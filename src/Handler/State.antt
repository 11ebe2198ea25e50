-- ===== src/Handler/State.antt =====
-- `SmppClientHandler`: its members and methods. All of them run on the strand of the handler, on which
-- `asio::dispatch` runs a function at once, so `send_pdu` is `enqueue_pdu`. `reading` and `writing`
-- count the asynchronous reads and writes that asio has not completed; what the handler does outside
-- the object is pushed on `log`, newest first.
use opensmsc.Framer.State.{Framer, FramerState, be32_to_host, feed_bytes, reset, pdu_complete}
use opensmsc.Handler.Session.{SmppSession, is_bound, new_session, set_state, unbound}
use opensmsc.Handler.Responses.{
  BindKind, build_bind_resp, build_enquire_link_resp, build_generic_nack, build_unbind_resp,
  cmd_bind_receiver, cmd_bind_transceiver, cmd_bind_transmitter, cmd_enquire_link, cmd_unbind,
}
use opensmsc.Base.{
  Bool, List, Option, Text, [], false, if◌then◌else◌, length, ltb, suc, true, zero, ℕ, ◌++◌, ◌+◌,
  ◌==◌, ◌∷◌,
}

pub data Effect : Type 0 where
  -- async_read_some and async_write
  read_started : Effect
  write_started : List ℕ → Effect
  authenticator_stopped : Text → Effect
  socket_closed : Effect

pub record Handler : Type 0 where
  pub session_id : Text
  pub framer : Framer
  pub session : SmppSession
  pub write_queue : List (List ℕ)
  pub write_in_progress : Bool
  pub close_after_write : Bool
  pub reading : ℕ
  pub writing : ℕ
  pub log : List Effect

unfoldable pub create_handler : Text → Handler
create_handler session_id = record {
  session_id = session_id;
  framer = reset;
  session = new_session;
  write_queue = [];
  write_in_progress = false;
  close_after_write = false;
  reading = 0;
  writing = 0;
  log = [];
}

-- The reason is logged only.
unfoldable pub close : Handler → Handler
close h = record h { log = socket_closed ∷ authenticator_stopped h.session_id ∷ h.log }

unfoldable pub do_read : Handler → Handler
do_read h = record h { reading = h.reading + 1; log = read_started ∷ h.log }

unfoldable pub start : Handler → Handler
start h = do_read h

-- `do_write`, by the queue.
abbrev pub write_front : List (List ℕ) → Handler → Handler
write_front [] h = record h { write_in_progress = false }
write_front (pdu ∷ queue) h = record h { writing = h.writing + 1; log = write_started pdu ∷ h.log }

unfoldable pub do_write : Handler → Handler
do_write h = write_front h.write_queue h

unfoldable pub enqueue_pdu : List ℕ → Handler → Handler
enqueue_pdu pdu h =
    let h = record h { write_queue = h.write_queue ++ (pdu ∷ []) } in
    if h.write_in_progress then h else do_write (record h { write_in_progress = true })

abbrev pub send_pdu : List ℕ → Handler → Handler
send_pdu pdu h = enqueue_pdu pdu h

-- `pop_front` of a deque that holds the PDU that was written.
abbrev pub pop_front : List (List ℕ) → List (List ℕ)
pop_front [] = []
pop_front (pdu ∷ queue) = queue

abbrev pub is_empty : List (List ℕ) → Bool
is_empty [] = true
is_empty (pdu ∷ queue) = false

-- The handler of a write: an error, or not.
unfoldable pub on_write : Bool → Handler → Handler
on_write true h = close h
on_write false h =
    let h = record h { write_queue = pop_front h.write_queue } in
    if h.close_after_write
    then close h
    else if is_empty h.write_queue
    then record h { write_in_progress = false }
    else do_write h

unfoldable pub handle_unbind : ℕ → Handler → Handler
handle_unbind seq h =
    if is_bound h.session
    then (let h = send_pdu (build_unbind_resp 0 seq) (record h { close_after_write = true }) in
        record h { session = set_state unbound h.session })
    else send_pdu (build_unbind_resp 0x0000_000D seq) h

unfoldable pub handle_enquire_link : ℕ → Handler → Handler
handle_enquire_link seq h =
    if is_bound h.session
    then send_pdu (build_enquire_link_resp 0 seq) h
    else send_pdu (build_enquire_link_resp 0x0000_000D seq) h

unfoldable pub handle_unknown : ℕ → ℕ → Handler → Handler
handle_unknown command_id seq h = send_pdu (build_generic_nack 0x0000_0003 seq) h

-- `ntoh32`, whose body is that of `SmppPduFramer::be32_to_host`.
abbrev pub ntoh32 : List ℕ → ℕ → ℕ
ntoh32 ptr off = be32_to_host ptr off

-- The cases of the `switch` in `dispatch_pdu`.
pub data Command : Type 0 where
  binding unbinding enquiring unknown : Command

unfoldable pub command_of : ℕ → Command
command_of id =
    if id == cmd_bind_receiver
    then binding
    else if id == cmd_bind_transmitter
    then binding
    else if id == cmd_bind_transceiver
    then binding
    else if id == cmd_unbind
    then unbinding
    else if id == cmd_enquire_link
    then enquiring
    else unknown

abbrev pub is_complete : FramerState → Bool
is_complete pdu_complete = true
is_complete _ = false

module _ (parse : BindKind → List ℕ → Option (Text × Text)) where
  -- `build_bind_resp` catches what the constructors of the requests throw, so the `catch` of the
  -- source is not entered.
  unfoldable pub handle_bind : ℕ → List ℕ → ℕ → Handler → Handler
  handle_bind command_id raw_pdu seq h =
      let (resp, session) = build_bind_resp parse command_id raw_pdu seq h.session in
      send_pdu resp (record h { session = session })

  abbrev pub dispatch_command : Command → ℕ → List ℕ → ℕ → Handler → Handler
  dispatch_command binding command_id pdu seq h = handle_bind command_id pdu seq h
  dispatch_command unbinding command_id pdu seq h = handle_unbind seq h
  dispatch_command enquiring command_id pdu seq h = handle_enquire_link seq h
  dispatch_command unknown command_id pdu seq h = handle_unknown command_id seq h

  unfoldable pub dispatch_pdu : List ℕ → Handler → Handler
  dispatch_pdu full_pdu h =
      if ltb (length full_pdu) 16
      then h
      else (let command_id = ntoh32 full_pdu 4 in
          dispatch_command (command_of command_id) command_id full_pdu (ntoh32 full_pdu 12) h)

  -- The `while` of `on_read`, on fuel.
  unfoldable pub drain : ℕ → Handler → Handler
  drain zero h = h
  drain (suc fuel) h = elim (is_complete h.framer.state) [
    | true ↦ drain fuel (record (dispatch_pdu h.framer.full_pdu h) { framer = reset })
    | false ↦ h
  ]

  -- The handler of a read: an error, or the bytes. The loop makes one round at most.
  unfoldable pub on_read : Bool → List ℕ → Handler → Handler
  on_read true bytes h = close h
  on_read false bytes h = do_read (drain 1 (record h { framer = (feed_bytes bytes h.framer).0 }))
