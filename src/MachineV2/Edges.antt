-- ===== src/MachineV2/Edges.antt =====
-- The handlers of the second state machine along its labelled diagram.
use opensmsc.MachineV2.Handlers.{
  bind_resp, Pdu, bind, enquire_link, enquire_link_resp, guarded, handle, handle_bind,
  handle_bind_resp, handle_enquire_link, handle_enquire_link_resp, handle_unbind,
  handle_unbind_resp, invoke_callbacks_for_bind_success, invoke_callbacks_for_unbind_success,
  unbind, unbind_resp,
}
use opensmsc.MachineV2.States.{
  on_bind_resp_in_binding, on_bind, on_bind_resp, on_enquire_link, on_enquire_link_resp, on_unbind,
  on_unbind_resp,
}
use opensmsc.MachineV2.Reactions.{
  call_if-current, ◌-[◌]→◌, accepts, becomes_rx, becomes_trx, becomes_tx, bind_fails, binds,
  handle_refused, keeps_alive, kept_alive, pdu_name, refused, stays_binding, transition_to-class,
  transition_to_error-class, unbind_fails, unbinds_rx, unbinds_trx, unbinds_tx, unbound,
}
use opensmsc.MachineV2.State.{
  Callback, Machine, StateClass, binding_state, call_if, class_of, bind_succeeded, bound_rx_state,
  bound_trx_state, bound_tx_state, connected_state, disconnected_state, get_current_state,
  state_name, transition_to, transition_to_disconnected, transition_to_error, unbinding_state,
  unbind_succeeded,
}
use opensmsc.Base.{
  Bool, ap, arith, false, if◌then◌else◌, refl, set, true, ℕ, ◌<◌, ◌≡◌, ◌⊎◌, ==_iff, Bool-cases, inl,
  inr, ◌++◌, ◌==◌, text,
}

zero_or_more : (n : ℕ) → (n ≡ 0) ⊎ (0 < n)
zero_or_more n = ground arith

if-class :
    (b : Bool) (m n : Machine) (s : StateClass)
    → class_of m.current ≡ s
    → class_of n.current ≡ s
    → class_of (if b then m else n).current ≡ s
if-class true m n s p q = p
if-class false m n s p q = q

answered-class :
    (b set : Bool) (c : Callback) (m : Machine)
    → class_of (if b then call_if set c m else m).current ≡ class_of m.current
answered-class b set c m = if-class b _ _ _ (ap class_of (call_if-current set c m)) refl

lands :
    (s : StateClass) (a : StateClass) (p : Pdu) (m : Machine)
    → a -[ p ]→ s
    → a -[ p ]→ class_of (transition_to s (state_name s) m).current
lands s a p m edge = rw (transition_to-class s m) edge

zero_test : (n : ℕ) → 0 < n → (n == 0) ≡ false
zero_test n h = ground arith

answered_edge :
    (a : StateClass) (p : Pdu) (b set : Bool) (c : Callback) (m : Machine)
    → a -[ p ]→ class_of m.current
    → a -[ p ]→ class_of (if b then call_if set c m else m).current
answered_edge a p b set c m edge = rw (answered-class b set c m) edge

edge_bind_resp_ok :
    (bind_type : ℕ) (m : Machine)
    → class_of m.current ≡ binding_state
    → binding_state
      -[ bind_resp bind_type 0 ]→ class_of (on_bind_resp_in_binding bind_type 0 m).current
unfolding on_bind_resp_in_binding state_name
edge_bind_resp_ok bind_type m e = elim (Bool-cases (bind_type == 0x8000_0002)) [
  | inl tx ↦ rw ((==_iff _ _).0 tx) (lands bound_tx_state _ _ m becomes_tx)
  | inr not_tx ↦ elim (Bool-cases (bind_type == 0x8000_0001)) [
    | inl rx ↦ rw ((==_iff _ _).0 rx) (lands bound_rx_state _ _ m becomes_rx)
    | inr not_rx ↦ elim (Bool-cases (bind_type == 0x8000_0009)) [
      | inl trx ↦ rw ((==_iff _ _).0 trx) (lands bound_trx_state _ _ m becomes_trx)
      | inr not_trx ↦
          rw (not_tx, not_rx, not_trx, e) (stays_binding (rw (not_tx, not_rx, not_trx) refl))
    ]
  ]
]

edge_bind_resp_failed :
    (bind_type status_code : ℕ) (m : Machine)
    → 0 < status_code
    → binding_state
      -[ bind_resp bind_type status_code ]→
        class_of (on_bind_resp_in_binding bind_type status_code m).current
unfolding on_bind_resp_in_binding state_name
edge_bind_resp_failed bind_type status_code m fails =
    rw (zero_test status_code fails) (lands disconnected_state _ _ m (bind_fails fails))

edge_bind_resp :
    (bind_type status_code : ℕ) (m : Machine)
    → class_of m.current ≡ binding_state
    → binding_state
      -[ bind_resp bind_type status_code ]→
        class_of (on_bind_resp_in_binding bind_type status_code m).current
edge_bind_resp bind_type status_code m e = elim (zero_or_more status_code) [
  | inl ok ↦ rw ok (edge_bind_resp_ok bind_type m e)
  | inr fails ↦ edge_bind_resp_failed bind_type status_code m fails
]

edge_unbind_resp :
    (status_code : ℕ) (m : Machine)
    → unbinding_state
      -[ unbind_resp status_code ]→
        class_of
          (if status_code == 0
            then transition_to_disconnected m
            else transition_to_error (text "UNBIND failed") m).current
unfolding state_name
edge_unbind_resp status_code m = elim (zero_or_more status_code) [
  | inl ok ↦ rw ok (lands disconnected_state _ _ m unbound)
  | inr fails ↦
      rw (zero_test status_code fails, transition_to_error-class (text "UNBIND failed") m)
        (unbind_fails fails)
]

accepted_edge :
    (s : StateClass) (p : Pdu) (m : Machine)
    → class_of m.current ≡ s
    → accepts s p ≡ true
    → s -[ p ]→ class_of (handle p m).current
unfolding handle handle_bind handle_bind_resp handle_unbind handle_unbind_resp handle_enquire_link
    handle_enquire_link_resp guarded on_bind on_bind_resp on_unbind on_unbind_resp on_enquire_link
    on_enquire_link_resp accepts invoke_callbacks_for_bind_success
    invoke_callbacks_for_unbind_success state_name
accepted_edge connected_state (bind bind_type) m e a = rw e (lands binding_state _ _ m binds)
accepted_edge binding_state (bind_resp bind_type status_code) m e a =
    let n = on_bind_resp_in_binding bind_type status_code m in
    rw e (
      answered_edge binding_state _ (status_code == 0) n.has_bind_callback
        (bind_succeeded bind_type) n (edge_bind_resp bind_type status_code m e))
accepted_edge bound_tx_state unbind m e a = rw e (lands unbinding_state _ _ m unbinds_tx)
accepted_edge bound_rx_state unbind m e a = rw e (lands unbinding_state _ _ m unbinds_rx)
accepted_edge bound_trx_state unbind m e a = rw e (lands unbinding_state _ _ m unbinds_trx)
accepted_edge bound_tx_state enquire_link m e a = rw (e, e) (keeps_alive a)
accepted_edge bound_rx_state enquire_link m e a = rw (e, e) (keeps_alive a)
accepted_edge bound_trx_state enquire_link m e a = rw (e, e) (keeps_alive a)
accepted_edge bound_tx_state (enquire_link_resp status_code) m e a = rw (e, e) (kept_alive a)
accepted_edge bound_rx_state (enquire_link_resp status_code) m e a = rw (e, e) (kept_alive a)
accepted_edge bound_trx_state (enquire_link_resp status_code) m e a = rw (e, e) (kept_alive a)
accepted_edge unbinding_state (unbind_resp status_code) m e a =
    let n =
      if status_code == 0
      then transition_to_disconnected m
      else transition_to_error (text "UNBIND failed") m in
    rw e (
      answered_edge unbinding_state _ (status_code == 0) n.has_unbind_callback unbind_succeeded n
        (edge_unbind_resp status_code m))
accepted_edge _ _ m e a = cc

-- Every PDU leads along the labelled diagram: from the machine's state, by an edge with that PDU, to the
-- state that its handler leaves.
pub handle-⟶ : (p : Pdu) (m : Machine) → class_of m.current -[ p ]→ class_of (handle p m).current
handle-⟶ p m = elim (Bool-cases (accepts (class_of m.current) p)) [
  | inl a ↦ accepted_edge _ p m refl a
  | inr r ↦
      rw
        (
          handle_refused p m r,
          transition_to_error-class
              (pdu_name p ++ text " PDU not accepted in state: " ++ get_current_state m) m,
        )
        (refused r)
]
