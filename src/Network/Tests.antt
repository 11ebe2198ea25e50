-- ===== src/Network/Tests.antt =====
-- Two sessions of a server, on which the theorems about them are applied.
use opensmsc.Registry.State.{add}
use opensmsc.Session.Bind.{bound_state, finish_bind, handle_bind}
use opensmsc.Base.Ordered.{insert_ordered}
use opensmsc.Network.State.{Network, handler_step, fresh, serve_all}
use opensmsc.Network.Consistent.{Event, acts, connects, connect, happen, happen_agrees, any_misses}
use opensmsc.Service.State.{SessionInfo, create_service, register_session, update_session_details}
use opensmsc.Pdu.Submit.{read_cstr, read_cstr_loop}
use opensmsc.Base.Dict.{find, insert}
use opensmsc.Pdu.Wire.{Header}
use opensmsc.Base.{
  List, Text, [], none, refl, some, true, ℕ, ◌=t=◌, ◌∷◌, ◌≡◌, text, ◌++◌, ◌⊎◌, false,
}
use opensmsc.Session.State.{Session, World, create, bound_tx, bound_rx, Effect, state_name, unbound}
use opensmsc.Session.Dispatch.{
  body_read, Input, step, on_body, dispatch, command_of, dispatch_command,
}
use opensmsc.Registry.State

abbrev quiet_world : World
quiet_world = record {
  authenticate = λ uuid sid pass ip. some (true, 0);
  system_seconds = 9;
  steady_ns = 0;
}

abbrev ip : Text
ip = text "10.0.0.1"

abbrev sender : Session
sender = record (create (text "aaaabbbb-1") ip 30 10 2 quiet_world) { state = bound_tx }

abbrev receiver : Session
receiver = record (create (text "bbbbcccc-2") ip 30 10 2 quiet_world) { state = bound_rx }

abbrev listed : Text → SessionInfo
listed state = record { client_ip = ip; system_id = text "esme"; state = state }

abbrev network : Network
network = record {
  service = record {
    registry = State.create 2;
    sessions = (text "a", listed (text "BOUND_TX")) ∷ (text "b", listed (text "BOUND_RX")) ∷ [];
    log = [];
  };
  handlers = (text "a", sender) ∷ (text "b", receiver) ∷ [];
}

abbrev submission : Header
submission = record { command_length = 16; command_id = 4; command_status = 0; sequence_number = 3 }

-- From "1" to "2", with message "hi".
abbrev body : List ℕ
body = 0 ∷ 0 ∷ 0 ∷ 49 ∷ 0 ∷ 0 ∷ 0 ∷ 50 ∷ 0 ∷ 0 ∷ 0 ∷ 0 ∷ 0 ∷ 0 ∷ 0 ∷ 0 ∷ 0 ∷ 0 ∷ 2 ∷ 104 ∷ 105 ∷ []

abbrev bind_input : Input
bind_input = body_read none (record submission { command_id = 2 }) (97 ∷ 0 ∷ 51 ∷ 0 ∷ [])

abbrev events : List Event
events =
    connects (text "a") 7 ip 30 10 2 quiet_world ∷ acts (text "a") bind_input quiet_world false ∷ []

abbrev before : Session
before = create (text "a") ip 30 10 2 quiet_world

abbrev after : Session
after = record (step bind_input quiet_world (fresh before)) {
  log = (step bind_input quiet_world (fresh before)).log ++ [];
}

-- What the server lists, whose call was lost.
abbrev open_info : SessionInfo
open_info = record { client_ip = ip; system_id = []; state = text "OPEN" }

happen_agrees_example :
    (text "OPEN" ≡ state_name after.state)
    ⊎ (after.state ≡ unbound)
    ⊎ ((any_misses (text "a") events ≡ true) × (text "OPEN" ≡ text "OPEN"))
unfolding opensmsc.Session.State.update_session_details
happen_agrees_example =
    happen_agrees (State.create 2) events (text "a") open_info after
      (unfold happen connect handler_step serve_all register_session add create_service State.create
          find insert insert_ordered create step on_body dispatch command_of dispatch_command
          handle_bind finish_bind bound_state update_session_details state_name read_cstr
          read_cstr_loop ◌=t=◌ in
        refl)
      (unfold happen connect handler_step serve_all register_session add create_service State.create
          find insert insert_ordered create step on_body dispatch command_of dispatch_command
          handle_bind finish_bind bound_state update_session_details read_cstr read_cstr_loop
          ◌=t=◌ in
        refl)
