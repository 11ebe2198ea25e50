-- ===== src/Handler/Tests.antt =====
-- Concrete PDUs and events, on which the theorems about the server's handler are applied.
use opensmsc.Handler.Reads.{Reach-Inv}
use opensmsc.Handler.Binds.{reads-bind}
use opensmsc.Handler.Loop.{listening, reads}
use opensmsc.Framer.Reassembly.{complete}
use opensmsc.Handler.Session.{bound_receiver, bound_transmitter, is_bound, new_session}
use opensmsc.Handler.Responses.{BindKind, bind_kind, build_unbind_resp}
use opensmsc.Handler.Writes.{
  Event, all_written, all_written_lem, handle_unbind_busy, happen, sent, sent_by, started, written,
}
use opensmsc.Base.{
  List, Option, Text, [], arith, drop, false, if◌then◌else◌, length, ltb, none, refl, some, take,
  true, ℕ, ◌++◌, ◌∷◌, ◌≡◌, text, ◌=t=◌,
}
use opensmsc.Pdu.WireLaws.{header_bytes}
use opensmsc.Handler.State.{
  Handler, authenticator_stopped, create_handler, do_read, do_write, enqueue_pdu, handle_unbind,
  on_write, send_pdu, socket_closed, start,
}
use opensmsc.Handler.Steps.{sends, starts, steps, write_completes, Inv}

-- A request whose system_id and password are four letters each, behind the header.
abbrev parse_request : BindKind → List ℕ → Option (Text × Text)
parse_request kind raw_pdu =
    if ltb (length raw_pdu) 24
    then none
    else some (take 4 (drop 16 raw_pdu), take 4 (drop 20 raw_pdu))

abbrev letters : List ℕ
letters = text "testtest"

abbrev bind_pdu : List ℕ
bind_pdu = header_bytes 24 2 0 7 ++ letters

abbrev bound_handler : Handler
bound_handler = record (create_handler (text "id")) {
  session = record new_session { state = bound_receiver };
  write_queue = (9 ∷ []) ∷ [];
  write_in_progress = true;
  writing = 1;
}

abbrev events : List Event
events = sent (1 ∷ []) ∷ sent (2 ∷ []) ∷ written ∷ sent (3 ∷ []) ∷ []

Reach-Inv_example : Inv (
    on_write false
      (record (send_pdu (1 ∷ []) (start (create_handler (text "id")))) { writing = 0 }))
unfolding start create_handler do_read enqueue_pdu do_write
Reach-Inv_example =
    Reach-Inv parse_request (text "id")
      (steps (steps starts (sends (1 ∷ []))) (write_completes false (omega arith)))

all_written_lem_example :
    let h = happen events (start (create_handler (text "id"))) in
    let h' = happen (all_written h.write_queue) h in
    (started h'.log ≡ (1 ∷ []) ∷ (2 ∷ []) ∷ (3 ∷ []) ∷ [])
    × (h'.write_queue ≡ [])
    × (h'.writing ≡ 0)
    × (h'.write_in_progress ≡ false)
unfolding sent_by
all_written_lem_example = all_written_lem events (text "id")

handle_unbind_busy_example :
    let h' = handle_unbind 5 bound_handler in
    (h'.write_queue ≡ (9 ∷ []) ∷ build_unbind_resp 0 5 ∷ [])
    × ((on_write false h').log ≡ socket_closed ∷ authenticator_stopped (text "id") ∷ [])
unfolding create_handler new_session is_bound
handle_unbind_busy_example = handle_unbind_busy 5 bound_handler refl refl

abbrev full_handler : Handler
full_handler = record bound_handler { framer = complete 24 2 0 7 bind_pdu }

reads-bind_example :
    (reads parse_request letters (
      reads parse_request (header_bytes 24 2 0 7) (listening (create_handler (text "id"))))).session
    ≡ record new_session { state = bound_transmitter; system_id = text "test" }
unfolding create_handler new_session is_bound bind_kind ◌=t=◌
reads-bind_example =
    reads-bind parse_request 24 2 0 7 116 (drop 1 letters) (create_handler (text "id"))
      (omega arith) (omega arith) (omega arith) (omega arith) refl refl
