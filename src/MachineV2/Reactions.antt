-- ===== src/MachineV2/Reactions.antt =====
-- The labelled diagram of the second state machine: which PDUs each state accepts, and where they lead.
use opensmsc.MachineV2.States.{
  not_accepted, on_bind, on_bind_resp, on_deliver_sm, on_deliver_sm_resp, on_enquire_link,
  on_enquire_link_resp, on_submit_sm, on_submit_sm_resp, on_unbind, on_unbind_resp,
}
use opensmsc.Base.{
  =t=_true, Bool, Bool-cases, Text, ap, false, if◌then◌else◌, inl, inr, refl, sym, true, ◌++◌,
  ◌=t=◌, ◌∙◌, ◌≡◌, text, ℕ, ◌<◌, ◌==◌, ◌||◌,
}
use opensmsc.MachineV2.Handlers.{
  Pdu, bind, bind_resp, deliver_sm, deliver_sm_resp, enquire_link, enquire_link_resp, guarded,
  handle, handle_bind, handle_bind_resp, handle_deliver_sm, handle_deliver_sm_resp,
  handle_enquire_link, handle_enquire_link_resp, handle_submit_sm, handle_submit_sm_resp,
  handle_unbind, handle_unbind_resp, submit_sm, submit_sm_resp, unbind, unbind_resp,
}
use opensmsc.MachineV2.State.{
  Callback, Machine, StateClass, binding_state, bound_rx_state, bound_trx_state, bound_tx_state,
  call_if, class_of, connected_state, disconnected_state, error_state, get_current_state,
  idle_state, state_name, transition_to, transition_to_error, unbinding_state,
}

-- What each class accepts.
unfoldable pub accepts : StateClass → Pdu → Bool
accepts connected_state (bind bind_type) = true
accepts binding_state (bind_resp bind_type status_code) = true
accepts bound_tx_state unbind = true
accepts bound_tx_state enquire_link = true
accepts bound_tx_state (enquire_link_resp status_code) = true
accepts bound_rx_state unbind = true
accepts bound_rx_state enquire_link = true
accepts bound_rx_state (enquire_link_resp status_code) = true
accepts bound_trx_state unbind = true
accepts bound_trx_state enquire_link = true
accepts bound_trx_state (enquire_link_resp status_code) = true
accepts unbinding_state (unbind_resp status_code) = true
accepts s p = false

unfoldable pub pdu_name : Pdu → Text
pdu_name (bind bind_type) = text "BIND"
pdu_name (bind_resp bind_type status_code) = text "BIND_RESP"
pdu_name unbind = text "UNBIND"
pdu_name (unbind_resp status_code) = text "UNBIND_RESP"
pdu_name enquire_link = text "ENQUIRE_LINK"
pdu_name (enquire_link_resp status_code) = text "ENQUIRE_LINK_RESP"
pdu_name submit_sm = text "SUBMIT_SM"
pdu_name (submit_sm_resp status_code) = text "SUBMIT_SM_RESP"
pdu_name deliver_sm = text "DELIVER_SM"
pdu_name (deliver_sm_resp status_code) = text "DELIVER_SM_RESP"

handle_refused_in :
    (s : StateClass) (p : Pdu) (m : Machine)
    → class_of m.current ≡ s
    → accepts s p ≡ false
    → handle p m
      ≡ transition_to_error (pdu_name p ++ text " PDU not accepted in state: " ++ state_name s) m
unfolding handle handle_bind handle_bind_resp handle_unbind handle_unbind_resp handle_enquire_link
    handle_enquire_link_resp handle_submit_sm handle_submit_sm_resp handle_deliver_sm
    handle_deliver_sm_resp guarded on_bind on_bind_resp on_unbind on_unbind_resp on_enquire_link
    on_enquire_link_resp on_submit_sm on_submit_sm_resp on_deliver_sm on_deliver_sm_resp
    not_accepted accepts pdu_name
handle_refused_in _ submit_sm m e h = rw e refl
handle_refused_in _ (submit_sm_resp status_code) m e h = rw e refl
handle_refused_in _ deliver_sm m e h = rw e refl
handle_refused_in _ (deliver_sm_resp status_code) m e h = rw e refl
handle_refused_in connected_state (bind bind_type) m e h = cc
handle_refused_in _ (bind bind_type) m e h = rw e refl
handle_refused_in binding_state (bind_resp bind_type status_code) m e h = cc
handle_refused_in _ (bind_resp bind_type status_code) m e h = rw e refl
handle_refused_in bound_tx_state unbind m e h = cc
handle_refused_in bound_rx_state unbind m e h = cc
handle_refused_in bound_trx_state unbind m e h = cc
handle_refused_in _ unbind m e h = rw e refl
handle_refused_in unbinding_state (unbind_resp status_code) m e h = cc
handle_refused_in _ (unbind_resp status_code) m e h = rw e refl
handle_refused_in bound_tx_state enquire_link m e h = cc
handle_refused_in bound_rx_state enquire_link m e h = cc
handle_refused_in bound_trx_state enquire_link m e h = cc
handle_refused_in _ enquire_link m e h = rw e refl
handle_refused_in bound_tx_state (enquire_link_resp status_code) m e h = cc
handle_refused_in bound_rx_state (enquire_link_resp status_code) m e h = cc
handle_refused_in bound_trx_state (enquire_link_resp status_code) m e h = cc
handle_refused_in _ (enquire_link_resp status_code) m e h = rw e refl

-- A PDU that the table does not accept in the machine's state moves the machine to ERROR_STATE, with an
-- error that names the PDU and the state.
pub handle_refused :
    (p : Pdu) (m : Machine)
    → accepts (class_of m.current) p ≡ false
    → handle p m
      ≡ transition_to_error
          (pdu_name p ++ text " PDU not accepted in state: " ++ get_current_state m)
          m
unfolding get_current_state
handle_refused p m h = handle_refused_in (class_of m.current) p m refl h

of_name : Text → StateClass
of_name t =
    if t =t= text "IDLE"
    then idle_state
    else if t =t= text "CONNECTED"
    then connected_state
    else if t =t= text "BINDING"
    then binding_state
    else if t =t= text "BOUND_TX"
    then bound_tx_state
    else if t =t= text "BOUND_RX"
    then bound_rx_state
    else if t =t= text "BOUND_TRX"
    then bound_trx_state
    else if t =t= text "UNBINDING"
    then unbinding_state
    else if t =t= text "DISCONNECTED"
    then disconnected_state
    else error_state

of_name-state_name : (s : StateClass) → of_name (state_name s) ≡ s
unfolding of_name state_name ◌=t=◌
of_name-state_name idle_state = refl
of_name-state_name connected_state = refl
of_name-state_name binding_state = refl
of_name-state_name bound_tx_state = refl
of_name-state_name bound_rx_state = refl
of_name-state_name bound_trx_state = refl
of_name-state_name unbinding_state = refl
of_name-state_name disconnected_state = refl
of_name-state_name error_state = refl

state_name-injective : (a b : StateClass) → (state_name a =t= state_name b) ≡ true → a ≡ b
state_name-injective a b h =
    sym (of_name-state_name a) ∙ ap of_name (=t=_true _ _ h) ∙ of_name-state_name b

pub call_if-current : (b : Bool) (c : Callback) (m : Machine) → (call_if b c m).current ≡ m.current
call_if-current true c m = refl
call_if-current false c m = refl

pub transition_to-class :
    (s : StateClass) (m : Machine) → class_of (transition_to s (state_name s) m).current ≡ s
unfolding transition_to get_current_state class_of
transition_to-class s m = elim (Bool-cases (state_name (class_of m.current) =t= state_name s)) [
  | inl same ↦ rw same (state_name-injective _ s same)
  | inr moves ↦ rw moves (ap class_of (call_if-current m.has_transition_callback _ _))
]

pub transition_to_error-class :
    (t : Text) (m : Machine) → class_of (transition_to_error t m).current ≡ error_state
unfolding transition_to_error state_name
transition_to_error-class t m =
    ap class_of (call_if-current _ _ _) ∙ transition_to-class error_state m

infix 40 ◌-[◌]→◌
-- `a -[ p ]→ b`: the PDU p leads from state a to state b.
pub data ◌-[◌]→◌ : StateClass → Pdu → StateClass → Type 0 where
  binds : {bind_type : ℕ} → connected_state -[ bind bind_type ]→ binding_state
  becomes_tx : binding_state -[ bind_resp 0x8000_0002 0 ]→ bound_tx_state
  becomes_rx : binding_state -[ bind_resp 0x8000_0001 0 ]→ bound_rx_state
  becomes_trx : binding_state -[ bind_resp 0x8000_0009 0 ]→ bound_trx_state
  stays_binding :
      {bind_type : ℕ}
      → ((bind_type == 0x8000_0002 || bind_type == 0x8000_0001 || bind_type == 0x8000_0009) ≡ false)
      → binding_state -[ bind_resp bind_type 0 ]→ binding_state
  bind_fails :
      {bind_type status_code : ℕ}
      → 0 < status_code
      → binding_state -[ bind_resp bind_type status_code ]→ disconnected_state
  unbinds_tx : bound_tx_state -[ unbind ]→ unbinding_state
  unbinds_rx : bound_rx_state -[ unbind ]→ unbinding_state
  unbinds_trx : bound_trx_state -[ unbind ]→ unbinding_state
  unbound : unbinding_state -[ unbind_resp 0 ]→ disconnected_state
  unbind_fails :
      {status_code : ℕ}
      → 0 < status_code
      → unbinding_state -[ unbind_resp status_code ]→ error_state
  keeps_alive : {s : StateClass} → accepts s enquire_link ≡ true → s -[ enquire_link ]→ s
  kept_alive :
      {s : StateClass} {status_code : ℕ}
      → accepts s (enquire_link_resp status_code) ≡ true
      → s -[ enquire_link_resp status_code ]→ s
  refused : {s : StateClass} {p : Pdu} → accepts s p ≡ false → s -[ p ]→ error_state
