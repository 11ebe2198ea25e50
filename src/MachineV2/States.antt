-- ===== src/MachineV2/States.antt =====
-- The classes of smpp_states.hpp: what each state does with each PDU. A method that a class does not
-- override throws, as SmppStateBase has it. The texts of a message and its addresses are not used by
-- any of the methods.
use opensmsc.Pdu.RoundTrip.{pdu}
use opensmsc.Base.{Text, if◌then◌else◌, text, ℕ, ◌++◌, ◌==◌}
use opensmsc.MachineV2.State.{
  Machine, StateClass, binding_state, bound_rx_state, bound_trx_state, bound_tx_state,
  connected_state, state_name, transition_to_binding, transition_to_bound_rx,
  transition_to_bound_trx, transition_to_bound_tx, transition_to_disconnected, transition_to_error,
  transition_to_unbinding, unbinding_state,
}

-- A method that returned, with the machine it leaves, or threw an SmppStateException before any change.
pub data Result : Type 0 where
  returned : Machine → Result
  thrown : Text → Result

unfoldable pub not_accepted : Text → StateClass → Result
not_accepted pdu s = thrown (pdu ++ text " PDU not accepted in state: " ++ state_name s)

unfoldable pub on_bind : StateClass → ℕ → Machine → Result
on_bind connected_state bind_type m = returned (transition_to_binding m)
on_bind s bind_type m = not_accepted (text "BIND") s

-- `BindingState::on_bind_resp`.
unfoldable pub on_bind_resp_in_binding : ℕ → ℕ → Machine → Machine
on_bind_resp_in_binding bind_type status_code m =
    if status_code == 0
    then (if bind_type == 0x8000_0002
        then transition_to_bound_tx m
        else if bind_type == 0x8000_0001
        then transition_to_bound_rx m
        else if bind_type == 0x8000_0009
        then transition_to_bound_trx m
        else m)
    else transition_to_disconnected m

unfoldable pub on_bind_resp : StateClass → ℕ → ℕ → Machine → Result
on_bind_resp binding_state bind_type status_code m =
    returned (on_bind_resp_in_binding bind_type status_code m)
on_bind_resp s bind_type status_code m = not_accepted (text "BIND_RESP") s

unfoldable pub on_unbind : StateClass → Machine → Result
on_unbind bound_tx_state m = returned (transition_to_unbinding m)
on_unbind bound_rx_state m = returned (transition_to_unbinding m)
on_unbind bound_trx_state m = returned (transition_to_unbinding m)
on_unbind s m = not_accepted (text "UNBIND") s

unfoldable pub on_unbind_resp : StateClass → ℕ → Machine → Result
on_unbind_resp unbinding_state status_code m = returned (
    if status_code == 0
    then transition_to_disconnected m
    else transition_to_error (text "UNBIND failed") m)
on_unbind_resp s status_code m = not_accepted (text "UNBIND_RESP") s

unfoldable pub on_enquire_link : StateClass → Machine → Result
on_enquire_link bound_tx_state m = returned m
on_enquire_link bound_rx_state m = returned m
on_enquire_link bound_trx_state m = returned m
on_enquire_link s m = not_accepted (text "ENQUIRE_LINK") s

unfoldable pub on_enquire_link_resp : StateClass → ℕ → Machine → Result
on_enquire_link_resp bound_tx_state status_code m = returned m
on_enquire_link_resp bound_rx_state status_code m = returned m
on_enquire_link_resp bound_trx_state status_code m = returned m
on_enquire_link_resp s status_code m = not_accepted (text "ENQUIRE_LINK_RESP") s

-- No class overrides the methods of the messages.
unfoldable pub on_submit_sm : StateClass → Machine → Result
on_submit_sm s m = not_accepted (text "SUBMIT_SM") s

unfoldable pub on_submit_sm_resp : StateClass → ℕ → Machine → Result
on_submit_sm_resp s status_code m = not_accepted (text "SUBMIT_SM_RESP") s

unfoldable pub on_deliver_sm : StateClass → Machine → Result
on_deliver_sm s m = not_accepted (text "DELIVER_SM") s

unfoldable pub on_deliver_sm_resp : StateClass → ℕ → Machine → Result
on_deliver_sm_resp s status_code m = not_accepted (text "DELIVER_SM_RESP") s
