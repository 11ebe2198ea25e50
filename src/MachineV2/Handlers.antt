-- ===== src/MachineV2/Handlers.antt =====
-- The handlers of `SmppStateMachine`: each calls the method of the current state, and catches what it
-- throws.
use opensmsc.Base.{List, [], if◌then◌else◌, ℕ, ◌==◌, ◌∷◌}
use opensmsc.MachineV2.State.{
  Machine, bind_succeeded, call_if, class_of, transition_to_error, unbind_succeeded,
}
use opensmsc.MachineV2.States.{
  Result, on_bind, on_bind_resp, on_deliver_sm, on_deliver_sm_resp, on_enquire_link,
  on_enquire_link_resp, on_submit_sm, on_submit_sm_resp, on_unbind, on_unbind_resp, returned,
  thrown,
}

-- The `try` of a handler: what follows the method, and the `catch`.
unfoldable pub guarded : Result → (Machine → Machine) → Machine → Machine
guarded (returned after) next m = next after
guarded (thrown what) next m = transition_to_error what m

unfoldable pub invoke_callbacks_for_bind_success : ℕ → Machine → Machine
invoke_callbacks_for_bind_success bind_type m =
    call_if m.has_bind_callback (bind_succeeded bind_type) m

unfoldable pub invoke_callbacks_for_unbind_success : Machine → Machine
invoke_callbacks_for_unbind_success m = call_if m.has_unbind_callback unbind_succeeded m

unfoldable pub handle_bind : ℕ → Machine → Machine
handle_bind bind_type m = guarded (on_bind (class_of m.current) bind_type m) (λ m. m) m

unfoldable pub handle_bind_resp : ℕ → ℕ → Machine → Machine
handle_bind_resp bind_type status_code m =
    guarded (on_bind_resp (class_of m.current) bind_type status_code m)
      (λ m. if status_code == 0 then invoke_callbacks_for_bind_success bind_type m else m) m

unfoldable pub handle_unbind : Machine → Machine
handle_unbind m = guarded (on_unbind (class_of m.current) m) (λ m. m) m

unfoldable pub handle_unbind_resp : ℕ → Machine → Machine
handle_unbind_resp status_code m =
    guarded (on_unbind_resp (class_of m.current) status_code m)
      (λ m. if status_code == 0 then invoke_callbacks_for_unbind_success m else m) m

unfoldable pub handle_enquire_link : Machine → Machine
handle_enquire_link m = guarded (on_enquire_link (class_of m.current) m) (λ m. m) m

unfoldable pub handle_enquire_link_resp : ℕ → Machine → Machine
handle_enquire_link_resp status_code m =
    guarded (on_enquire_link_resp (class_of m.current) status_code m) (λ m. m) m

unfoldable pub handle_submit_sm : Machine → Machine
handle_submit_sm m = guarded (on_submit_sm (class_of m.current) m) (λ m. m) m

unfoldable pub handle_submit_sm_resp : ℕ → Machine → Machine
handle_submit_sm_resp status_code m =
    guarded (on_submit_sm_resp (class_of m.current) status_code m) (λ m. m) m

unfoldable pub handle_deliver_sm : Machine → Machine
handle_deliver_sm m = guarded (on_deliver_sm (class_of m.current) m) (λ m. m) m

unfoldable pub handle_deliver_sm_resp : ℕ → Machine → Machine
handle_deliver_sm_resp status_code m =
    guarded (on_deliver_sm_resp (class_of m.current) status_code m) (λ m. m) m

-- The handlers, as inputs of the machine.
pub data Pdu : Type 0 where
  bind : ℕ → Pdu
  bind_resp : ℕ → ℕ → Pdu
  unbind enquire_link submit_sm deliver_sm : Pdu
  unbind_resp enquire_link_resp submit_sm_resp deliver_sm_resp : ℕ → Pdu

unfoldable pub handle : Pdu → Machine → Machine
handle (bind bind_type) m = handle_bind bind_type m
handle (bind_resp bind_type status_code) m = handle_bind_resp bind_type status_code m
handle unbind m = handle_unbind m
handle (unbind_resp status_code) m = handle_unbind_resp status_code m
handle enquire_link m = handle_enquire_link m
handle (enquire_link_resp status_code) m = handle_enquire_link_resp status_code m
handle submit_sm m = handle_submit_sm m
handle (submit_sm_resp status_code) m = handle_submit_sm_resp status_code m
handle deliver_sm m = handle_deliver_sm m
handle (deliver_sm_resp status_code) m = handle_deliver_sm_resp status_code m

unfoldable pub run : Machine → List Pdu → Machine
run m [] = m
run m (p ∷ ps) = run (handle p m) ps
