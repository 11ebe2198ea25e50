-- ===== src/Machine/Events.antt =====
-- The requests of a client and the events of the network.
use opensmsc.Machine.State.{
  Machine, SmppEvent, SmppState, bind_succeeded, binding, bound_rx, bound_trx, bound_tx, call_if,
  cmd_bind_receiver, cmd_bind_transceiver, cmd_bind_transmitter, cmd_enquire_link, cmd_unbind,
  cmd_unbind_resp, connected, disconnected, error_state, get_bind_state_from_response, handle_error,
  idle, is_bind_response, is_bound, number, status_rok, transition_to, unbind_succeeded, unbinding,
}
use opensmsc.Base.{
  ℕ, Bool, List, Text, [], false, if◌then◌else◌, ltb, suc, text, true, zero, ◌%◌, ◌++◌, ◌+◌, ◌/◌,
  ◌==◌, ◌||◌, ◌∷◌,
}

-- `std::to_string` of a number with at most `fuel` decimal digits.
unfoldable pub to_decimal : ℕ → ℕ → Text
to_decimal zero n = []
to_decimal (suc fuel) n =
    let front = to_decimal fuel (n / 10) in
    if ltb n 10 then (b'0' + n) ∷ [] else front ++ ((b'0' + n % 10) ∷ [])

-- A uint32_t has at most ten.
abbrev pub to_string : ℕ → Text
to_string n = to_decimal 10 n

unfoldable pub request_bind : ℕ → Machine → Bool × Machine
request_bind bind_command_id m =
    if number m.current_state == number connected
    then (if bind_command_id == cmd_bind_transmitter
          || bind_command_id == cmd_bind_receiver
          || bind_command_id == cmd_bind_transceiver
        then (true, transition_to binding m)
        else (false, m))
    else (false, m)

unfoldable pub request_unbind : Machine → Bool × Machine
request_unbind m =
    if is_bound m.current_state then (true, transition_to unbinding m) else (false, m)

unfoldable pub request_enquire_link : Machine → Bool × Machine
request_enquire_link m = if is_bound m.current_state then (true, m) else (false, m)

unfoldable pub handle_bind_response : SmppEvent → Machine → Machine
handle_bind_response event m =
    if event.status_code == status_rok
    then (let m = transition_to (get_bind_state_from_response event.command_id) m in
        call_if m.has_bind_callback (bind_succeeded event) m)
    else transition_to disconnected
        (handle_error (text "BIND failed with status code: 0x" ++ to_string event.status_code) m)

unfoldable pub handle_unbind_response : SmppEvent → Machine → Machine
handle_unbind_response event m =
    if event.status_code == status_rok
    then (let m = transition_to disconnected m in
        call_if m.has_unbind_callback (unbind_succeeded event) m)
    else transition_to error_state
        (handle_error (text "UNBIND failed with status code: 0x" ++ to_string event.status_code) m)

unfoldable pub handle_event_in_binding : SmppEvent → Machine → Machine
handle_event_in_binding event m =
    if is_bind_response event.command_id
    then handle_bind_response event m
    else handle_error (text "Unexpected PDU in BINDING state: 0x" ++ to_string event.command_id) m

-- `handle_event_in_bound_tx`, `_rx` and `_trx` differ in what they log only.
unfoldable pub handle_event_in_bound : SmppEvent → Machine → Machine
handle_event_in_bound event m =
    if event.command_id == cmd_enquire_link
    then m
    else if event.command_id == cmd_unbind
    then transition_to unbinding m
    else m

unfoldable pub handle_event_in_unbinding : SmppEvent → Machine → Machine
handle_event_in_unbinding event m =
    if event.command_id == cmd_unbind_resp
    then handle_unbind_response event m
    else handle_error (text "Unexpected PDU in UNBINDING state: 0x" ++ to_string event.command_id) m

-- The `switch` of `process_event`.
unfoldable pub process_in : SmppState → SmppEvent → Machine → Machine
process_in idle event m = m
process_in connected event m = m
process_in binding event m = handle_event_in_binding event m
process_in bound_tx event m = handle_event_in_bound event m
process_in bound_rx event m = handle_event_in_bound event m
process_in bound_trx event m = handle_event_in_bound event m
process_in unbinding event m = handle_event_in_unbinding event m
process_in disconnected event m = m
process_in error_state event m = m

unfoldable pub process_event : SmppEvent → Machine → Machine
process_event event m = process_in m.current_state event m

-- The public methods that change a machine.
pub data Request : Type 0 where
  binds : ℕ → Request
  unbinds enquires : Request
  receives : SmppEvent → Request

unfoldable pub step : Request → Machine → Machine
step (binds id) m = (request_bind id m).1
step unbinds m = (request_unbind m).1
step enquires m = (request_enquire_link m).1
step (receives event) m = process_event event m

unfoldable pub run : Machine → List Request → Machine
run m [] = m
run m (r ∷ rs) = run (step r m) rs
