-- ===== src/Machine/State.antt =====
-- `SmppStateMachine` (the first version): its state and what its methods share. The calls of the
-- registered callbacks are pushed on `calls`, newest first; a callback that is not set is not called.
use opensmsc.Base.{ℕ, Bool, List, Text, [], false, if◌then◌else◌, text, true, ◌==◌, ◌||◌, ◌∷◌}

pub data SmppState : Type 0 where
  idle connected binding bound_tx bound_rx bound_trx unbinding disconnected error_state : SmppState

pub record SmppEvent : Type 0 where
  pub command_id : ℕ
  pub status_code : ℕ
  pub error_msg : Text
  pub sequence_num : ℕ

-- namespace CommandIdValues
abbrev pub cmd_bind_receiver : ℕ
cmd_bind_receiver = 0x0000_0001

abbrev pub cmd_bind_transmitter : ℕ
cmd_bind_transmitter = 0x0000_0002

abbrev pub cmd_bind_transceiver : ℕ
cmd_bind_transceiver = 0x0000_0009

abbrev pub cmd_unbind : ℕ
cmd_unbind = 0x0000_0006

abbrev pub cmd_enquire_link : ℕ
cmd_enquire_link = 0x0000_0015

abbrev pub cmd_bind_receiver_resp : ℕ
cmd_bind_receiver_resp = 0x8000_0001

abbrev pub cmd_bind_transmitter_resp : ℕ
cmd_bind_transmitter_resp = 0x8000_0002

abbrev pub cmd_bind_transceiver_resp : ℕ
cmd_bind_transceiver_resp = 0x8000_0009

abbrev pub cmd_unbind_resp : ℕ
cmd_unbind_resp = 0x8000_0006

abbrev pub status_rok : ℕ
status_rok = 0

pub data Callback : Type 0 where
  transitioned : SmppState → SmppState → Callback
  bind_succeeded unbind_succeeded : SmppEvent → Callback
  failed : Text → Callback

pub record Machine : Type 0 where
  pub current_state : SmppState
  pub has_transition_callback : Bool
  pub has_bind_callback : Bool
  pub has_unbind_callback : Bool
  pub has_error_callback : Bool
  pub calls : List Callback

-- A new machine, whose callbacks are registered or not as the flags say.
unfoldable pub create_machine : Bool → Bool → Bool → Bool → Machine
create_machine transition_set bind_set unbind_set error_set = record {
  current_state = idle;
  has_transition_callback = transition_set;
  has_bind_callback = bind_set;
  has_unbind_callback = unbind_set;
  has_error_callback = error_set;
  calls = [];
}

unfoldable pub state_to_string : SmppState → Text
state_to_string idle = text "IDLE"
state_to_string connected = text "CONNECTED"
state_to_string binding = text "BINDING"
state_to_string bound_tx = text "BOUND_TX"
state_to_string bound_rx = text "BOUND_RX"
state_to_string bound_trx = text "BOUND_TRX"
state_to_string unbinding = text "UNBINDING"
state_to_string disconnected = text "DISCONNECTED"
state_to_string error_state = text "ERROR_STATE"

pub SmppState-discrete : Discrete SmppState
SmppState-discrete = hlevel

-- The number of a state in the enumeration, by which `==` compares.
abbrev pub number : SmppState → ℕ
number idle = 0
number connected = 1
number binding = 2
number bound_tx = 3
number bound_rx = 4
number bound_trx = 5
number unbinding = 6
number disconnected = 7
number error_state = 8

abbrev pub call_if : Bool → Callback → Machine → Machine
call_if true c m = record m { calls = c ∷ m.calls }
call_if false c m = m

unfoldable pub transition_to : SmppState → Machine → Machine
transition_to new_state m =
    if number m.current_state == number new_state
    then m
    else call_if m.has_transition_callback (transitioned m.current_state new_state)
        (record m { current_state = new_state })

unfoldable pub is_bound : SmppState → Bool
is_bound s =
    number s == number bound_tx || number s == number bound_rx || number s == number bound_trx

unfoldable pub can_send : SmppState → Bool
can_send s = number s == number bound_tx || number s == number bound_trx

unfoldable pub can_receive : SmppState → Bool
can_receive s = number s == number bound_rx || number s == number bound_trx

unfoldable pub is_bind_response : ℕ → Bool
is_bind_response cmd_id =
    cmd_id == cmd_bind_transmitter_resp
    || cmd_id == cmd_bind_receiver_resp
    || cmd_id == cmd_bind_transceiver_resp

unfoldable pub get_bind_state_from_response : ℕ → SmppState
get_bind_state_from_response cmd_id =
    if cmd_id == cmd_bind_transmitter_resp
    then bound_tx
    else if cmd_id == cmd_bind_receiver_resp
    then bound_rx
    else if cmd_id == cmd_bind_transceiver_resp
    then bound_trx
    else error_state

unfoldable pub handle_error : Text → Machine → Machine
handle_error error_msg m =
    let m = transition_to error_state m in call_if m.has_error_callback (failed error_msg) m
