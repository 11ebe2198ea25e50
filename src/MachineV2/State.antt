-- ===== src/MachineV2/State.antt =====
-- The second `SmppStateMachine`: its state, its transitions and the objects it owns. The calls of the
-- callbacks that are set are pushed on `calls`, newest first.
--
-- `current_state_` and the nine members of the kind `binding_state_` are owners (`unique_ptr`) of state
-- objects. `current` is the object that `current_state_` points to, and `deleted` lists the objects that
-- an owner has deleted, newest first.
use opensmsc.Base.{Bool, List, Text, [], false, if◌then◌else◌, text, true, ℕ, ◌=t=◌, ◌||◌, ◌∷◌}

pub data StateClass : Type 0 where
  idle_state connected_state binding_state bound_tx_state bound_rx_state : StateClass
  bound_trx_state unbinding_state disconnected_state error_state : StateClass

unfoldable pub state_name : StateClass → Text
state_name idle_state = text "IDLE"
state_name connected_state = text "CONNECTED"
state_name binding_state = text "BINDING"
state_name bound_tx_state = text "BOUND_TX"
state_name bound_rx_state = text "BOUND_RX"
state_name bound_trx_state = text "BOUND_TRX"
state_name unbinding_state = text "UNBINDING"
state_name disconnected_state = text "DISCONNECTED"
state_name error_state = text "ERROR_STATE"

-- An object: the IdleState that `init_states` makes for `current_state_`, or the instance of a member.
pub data Object : Type 0 where
  first : Object
  instance_of : StateClass → Object

unfoldable pub class_of : Object → StateClass
class_of first = idle_state
class_of (instance_of s) = s

pub data Callback : Type 0 where
  transitioned : Text → Text → Callback
  bind_succeeded : ℕ → Callback
  unbind_succeeded : Callback
  failed : Text → Callback

pub record Machine : Type 0 where
  pub current : Object
  pub deleted : List Object
  pub has_transition_callback : Bool
  pub has_bind_callback : Bool
  pub has_unbind_callback : Bool
  pub has_error_callback : Bool
  pub calls : List Callback

-- The constructor, and the callbacks that are registered.
unfoldable pub init_states : Bool → Bool → Bool → Bool → Machine
init_states transition_set bind_set unbind_set error_set = record {
  current = first;
  deleted = [];
  has_transition_callback = transition_set;
  has_bind_callback = bind_set;
  has_unbind_callback = unbind_set;
  has_error_callback = error_set;
  calls = [];
}

unfoldable pub get_current_state : Machine → Text
get_current_state m = state_name (class_of m.current)

unfoldable pub is_bound : Machine → Bool
is_bound m =
    let state = get_current_state m in
    state =t= text "BOUND_TX" || state =t= text "BOUND_RX" || state =t= text "BOUND_TRX"

unfoldable pub can_send : Machine → Bool
can_send m =
    let state = get_current_state m in state =t= text "BOUND_TX" || state =t= text "BOUND_TRX"

unfoldable pub can_receive : Machine → Bool
can_receive m =
    let state = get_current_state m in state =t= text "BOUND_RX" || state =t= text "BOUND_TRX"

abbrev pub call_if : Bool → Callback → Machine → Machine
call_if true c m = record m { calls = c ∷ m.calls }
call_if false c m = m

-- `transition_to(x_state_.get(), "X")`: `reset` deletes the object that it replaces.
unfoldable pub transition_to : StateClass → Text → Machine → Machine
transition_to new_state name m =
    let old_state = get_current_state m in
    if old_state =t= name
    then m
    else call_if m.has_transition_callback (transitioned old_state name)
        (record m { current = instance_of new_state; deleted = m.current ∷ m.deleted })

abbrev pub transition_to_connected : Machine → Machine
transition_to_connected m = transition_to connected_state (text "CONNECTED") m

abbrev pub transition_to_binding : Machine → Machine
transition_to_binding m = transition_to binding_state (text "BINDING") m

abbrev pub transition_to_bound_tx : Machine → Machine
transition_to_bound_tx m = transition_to bound_tx_state (text "BOUND_TX") m

abbrev pub transition_to_bound_rx : Machine → Machine
transition_to_bound_rx m = transition_to bound_rx_state (text "BOUND_RX") m

abbrev pub transition_to_bound_trx : Machine → Machine
transition_to_bound_trx m = transition_to bound_trx_state (text "BOUND_TRX") m

abbrev pub transition_to_unbinding : Machine → Machine
transition_to_unbinding m = transition_to unbinding_state (text "UNBINDING") m

abbrev pub transition_to_disconnected : Machine → Machine
transition_to_disconnected m = transition_to disconnected_state (text "DISCONNECTED") m

unfoldable pub transition_to_error : Text → Machine → Machine
transition_to_error error_msg m =
    let m = transition_to error_state (text "ERROR_STATE") m in
    call_if m.has_error_callback (failed error_msg) m

-- The destructor: the members are deleted in the reverse order of their declaration.
unfoldable pub destroy : Machine → List Object
destroy m =
    m.current
    ∷ instance_of idle_state
    ∷ instance_of connected_state
    ∷ instance_of binding_state
    ∷ instance_of bound_tx_state
    ∷ instance_of bound_rx_state
    ∷ instance_of bound_trx_state
    ∷ instance_of unbinding_state
    ∷ instance_of disconnected_state
    ∷ instance_of error_state
    ∷ m.deleted
