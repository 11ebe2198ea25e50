-- ===== src/MachineV2/Owners.antt =====
-- What the owners of the state objects of the second state machine delete.
use opensmsc.MachineV2.Reactions.{accepts, handle_refused}
use opensmsc.MachineV2.States.{
  on_bind, on_bind_resp, on_bind_resp_in_binding, on_enquire_link, on_enquire_link_resp, on_unbind,
  on_unbind_resp,
}
use opensmsc.Base.{
  Bool, List, Text, false, if◌then◌else◌, refl, true, ◌=t=◌, ◌∷◌, ◌≡◌, Bool-cases, [], inl, inr,
  set, ℕ, ◌==◌, text,
}
use opensmsc.MachineV2.State.{
  Callback, Machine, Object, StateClass, binding_state, bound_rx_state, bound_trx_state,
  bound_tx_state, call_if, connected_state, destroy, disconnected_state, error_state,
  get_current_state, idle_state, instance_of, transition_to, transition_to_error, unbinding_state,
  class_of, init_states, state_name,
}
use opensmsc.MachineV2.Handlers.{
  guarded, Pdu, bind, bind_resp, enquire_link, enquire_link_resp, handle, handle_bind,
  handle_bind_resp, handle_enquire_link, handle_enquire_link_resp, handle_unbind,
  handle_unbind_resp, invoke_callbacks_for_bind_success, invoke_callbacks_for_unbind_success, run,
  unbind, unbind_resp,
}
use mathlib.Core.List.{Mem, mem-cons_self, mem-cons_of_mem}

-- `o` stands at two places of a list.
pub data StandsTwice (o : Object) : List Object → Type 0 where
  here_and_later : {os : List Object} → Mem o os → StandsTwice o (o ∷ os)
  later : {x : Object} {os : List Object} → StandsTwice o os → StandsTwice o (x ∷ os)

-- `current_state_` points to the object of a member.
IsShared : Machine → Type 0
IsShared m = (a : StateClass) × (m.current ≡ instance_of a)

ruleset places = (mem-cons_self, mem-cons_of_mem)

members : List Object → List Object
members os =
    instance_of idle_state
    ∷ instance_of connected_state
    ∷ instance_of binding_state
    ∷ instance_of bound_tx_state
    ∷ instance_of bound_rx_state
    ∷ instance_of bound_trx_state
    ∷ instance_of unbinding_state
    ∷ instance_of disconnected_state
    ∷ instance_of error_state
    ∷ os

Mem-members : (a : StateClass) (os : List Object) → Mem (instance_of a) (members os)
unfolding members
Mem-members idle_state os = search places depth 12
Mem-members connected_state os = search places depth 12
Mem-members binding_state os = search places depth 12
Mem-members bound_tx_state os = search places depth 12
Mem-members bound_rx_state os = search places depth 12
Mem-members bound_trx_state os = search places depth 12
Mem-members unbinding_state os = search places depth 12
Mem-members disconnected_state os = search places depth 12
Mem-members error_state os = search places depth 12

destroy-IsShared : (m : Machine) → IsShared m → (o : Object) × StandsTwice o (destroy m)
unfolding destroy IsShared members
destroy-IsShared m (a, e) = rw e (instance_of a, here_and_later (Mem-members a m.deleted))

call_if-IsShared : (b : Bool) (c : Callback) (m : Machine) → IsShared m → IsShared (call_if b c m)
unfolding IsShared
call_if-IsShared true c m h = h
call_if-IsShared false c m h = h

if-IsShared : (b : Bool) (m n : Machine) → IsShared m → IsShared n → IsShared (if b then m else n)
if-IsShared true m n p q = p
if-IsShared false m n p q = q

transition_to-IsShared :
    (s : StateClass) (name : Text) (m : Machine) → IsShared m → IsShared (transition_to s name m)
unfolding transition_to IsShared
transition_to-IsShared s name m h =
    if-IsShared (get_current_state m =t= name) _ _ h
      (call_if-IsShared m.has_transition_callback _ _ (s, refl))

transition_to_error-IsShared :
    (e : Text) (m : Machine) → IsShared m → IsShared (transition_to_error e m)
unfolding transition_to_error
transition_to_error-IsShared e m h =
    call_if-IsShared _ _ _ (transition_to-IsShared error_state _ m h)

answered-IsShared :
    (b : Bool) (set : Bool) (c : Callback) (m : Machine)
    → IsShared m
    → IsShared (if b then call_if set c m else m)
answered-IsShared b set c m h = if-IsShared b _ _ (call_if-IsShared set c m h) h

on_bind_resp-IsShared :
    (bind_type status_code : ℕ) (m : Machine)
    → IsShared m
    → IsShared (on_bind_resp_in_binding bind_type status_code m)
unfolding on_bind_resp_in_binding
on_bind_resp-IsShared bind_type status_code m h =
    if-IsShared (status_code == 0) _ _
      (if-IsShared (bind_type == 0x8000_0002) _ _ (transition_to-IsShared _ _ m h) (
        if-IsShared (bind_type == 0x8000_0001) _ _ (transition_to-IsShared _ _ m h)
          (if-IsShared (bind_type == 0x8000_0009) _ _ (transition_to-IsShared _ _ m h) h)))
      (transition_to-IsShared _ _ m h)

accepted-IsShared :
    (s : StateClass) (p : Pdu) (m : Machine)
    → class_of m.current ≡ s
    → accepts s p ≡ true
    → IsShared m
    → IsShared (handle p m)
unfolding handle handle_bind handle_bind_resp handle_unbind handle_unbind_resp handle_enquire_link
    handle_enquire_link_resp guarded on_bind on_bind_resp on_unbind on_unbind_resp on_enquire_link
    on_enquire_link_resp accepts invoke_callbacks_for_bind_success
    invoke_callbacks_for_unbind_success
accepted-IsShared connected_state (bind bind_type) m e a h = rw e (transition_to-IsShared _ _ m h)
accepted-IsShared binding_state (bind_resp bind_type status_code) m e a h =
    rw e (answered-IsShared _ _ _ _ (on_bind_resp-IsShared bind_type status_code m h))
accepted-IsShared bound_tx_state unbind m e a h = rw e (transition_to-IsShared _ _ m h)
accepted-IsShared bound_rx_state unbind m e a h = rw e (transition_to-IsShared _ _ m h)
accepted-IsShared bound_trx_state unbind m e a h = rw e (transition_to-IsShared _ _ m h)
accepted-IsShared bound_tx_state enquire_link m e a h = rw e h
accepted-IsShared bound_rx_state enquire_link m e a h = rw e h
accepted-IsShared bound_trx_state enquire_link m e a h = rw e h
accepted-IsShared bound_tx_state (enquire_link_resp status_code) m e a h = rw e h
accepted-IsShared bound_rx_state (enquire_link_resp status_code) m e a h = rw e h
accepted-IsShared bound_trx_state (enquire_link_resp status_code) m e a h = rw e h
accepted-IsShared unbinding_state (unbind_resp status_code) m e a h = rw e (
    answered-IsShared _ _ _ _ (
      if-IsShared (status_code == 0) _ _ (transition_to-IsShared _ _ m h)
        (transition_to_error-IsShared _ m h)))
accepted-IsShared _ _ m e a h = cc

handle-IsShared : (p : Pdu) (m : Machine) → IsShared m → IsShared (handle p m)
handle-IsShared p m h = elim (Bool-cases (accepts (class_of m.current) p)) [
  | inl a ↦ accepted-IsShared _ p m refl a h
  | inr r ↦ rw (handle_refused p m r) (transition_to_error-IsShared _ m h)
]

run-IsShared : (m : Machine) (ps : List Pdu) → IsShared m → IsShared (run m ps)
unfolding run
run-IsShared m [] h = h
run-IsShared m (p ∷ ps) h = run-IsShared (handle p m) ps (handle-IsShared p m h)

instance-IsShared : (a : StateClass) (m : Machine) → m.current ≡ instance_of a → IsShared m
unfolding IsShared
instance-IsShared a m e = (a, e)

enters_error :
    (m : Machine)
    → class_of m.current ≡ idle_state
    → IsShared (transition_to error_state (text "ERROR_STATE") m)
unfolding transition_to get_current_state state_name ◌=t=◌
enters_error m e =
    rw e (call_if-IsShared m.has_transition_callback _ _ (instance-IsShared error_state _ refl))

leaves_idle :
    (t : Text) (m : Machine) → class_of m.current ≡ idle_state → IsShared (transition_to_error t m)
unfolding transition_to_error
leaves_idle t m e = call_if-IsShared _ _ _ (enters_error m e)

idle_refuses : (p : Pdu) → accepts idle_state p ≡ false
unfolding accepts
idle_refuses (bind bind_type) = refl
idle_refuses _ = refl

-- Whatever callbacks are set, when a new machine has handled a PDU p and further ones ps and is
-- destroyed, some object stands twice in the list of the objects deleted.
pub destroy_deletes_twice :
    (transition_set bind_set unbind_set error_set : Bool) (p : Pdu) (ps : List Pdu)
    → (o : Object) × StandsTwice o
        (destroy (run (init_states transition_set bind_set unbind_set error_set) (p ∷ ps)))
unfolding run init_states class_of
destroy_deletes_twice transition_set bind_set unbind_set error_set p ps =
    let m = init_states transition_set bind_set unbind_set error_set in
    destroy-IsShared _
      (run-IsShared _ ps (rw (handle_refused p m (idle_refuses p)) (leaves_idle _ m refl)))
