-- ===== src/Machine/Diagram.antt =====
-- The state diagram of `SmppStateMachine`.
use opensmsc.Machine.Events.{
  handle_bind_response, handle_event_in_binding, handle_event_in_bound, handle_event_in_unbinding,
  handle_unbind_response, process_in, Request, binds, enquires, process_event, receives,
  request_bind, request_enquire_link, request_unbind, step, unbinds, run,
}
use opensmsc.Machine.State.{
  Machine, SmppEvent, SmppState, binding, bound_rx, bound_trx, bound_tx, connected, disconnected,
  error_state, get_bind_state_from_response, handle_error, idle, is_bind_response, transition_to,
  unbinding, is_bound,
}
use opensmsc.Base.{ℕ, arith, ◌≡◌, refl, List, [], ap, subst, ◌∙◌, ◌∷◌}

infix 40 ◌⟶◌
pub data ◌⟶◌ : SmppState → SmppState → Type 0 where
  stay : {a : SmppState} → a ⟶ a
  bind_request : connected ⟶ binding
  bind_ok_tx : binding ⟶ bound_tx
  bind_ok_rx : binding ⟶ bound_rx
  bind_ok_trx : binding ⟶ bound_trx
  bind_failed : binding ⟶ disconnected
  bind_confused : binding ⟶ error_state
  unbind_tx : bound_tx ⟶ unbinding
  unbind_rx : bound_rx ⟶ unbinding
  unbind_trx : bound_trx ⟶ unbinding
  unbind_ok : unbinding ⟶ disconnected
  unbind_failed : unbinding ⟶ error_state

ruleset edges = (
  stay, bind_request, bind_ok_tx, bind_ok_rx, bind_ok_trx, bind_failed, bind_confused, unbind_tx,
  unbind_rx, unbind_trx, unbind_ok, unbind_failed,
)

process_in-⟶ :
    (st : SmppState) (event : SmppEvent) (m : Machine)
    → m.current_state ≡ st
    → m.current_state ⟶ (process_in st event m).current_state
unfolding process_in handle_event_in_binding handle_event_in_bound handle_event_in_unbinding
    handle_bind_response handle_unbind_response handle_error transition_to
    get_bind_state_from_response is_bind_response
process_in-⟶ idle event m e = stay
process_in-⟶ connected event m e = stay
process_in-⟶ binding event m e = rw e (grind (arith, edges))
process_in-⟶ bound_tx event m e = rw e (grind (arith, edges))
process_in-⟶ bound_rx event m e = rw e (grind (arith, edges))
process_in-⟶ bound_trx event m e = rw e (grind (arith, edges))
process_in-⟶ unbinding event m e = rw e (grind (arith, edges))
process_in-⟶ disconnected event m e = stay
process_in-⟶ error_state event m e = stay

request_bind-⟶ :
    (id : ℕ) (st : SmppState) (m : Machine)
    → m.current_state ≡ st
    → m.current_state ⟶ (request_bind id m).1.current_state
unfolding request_bind transition_to
request_bind-⟶ id connected m e = rw e (grind (arith, edges))
request_bind-⟶ id idle m e = rw e (grind (arith, edges))
request_bind-⟶ id _ m e = rw e (grind (arith, edges))

request_unbind-⟶ :
    (st : SmppState) (m : Machine)
    → m.current_state ≡ st
    → m.current_state ⟶ (request_unbind m).1.current_state
unfolding request_unbind transition_to is_bound
request_unbind-⟶ _ m e = rw e (grind (arith, edges))

pub request_enquire_link-stays : (m : Machine) → (request_enquire_link m).1 ≡ m
unfolding request_enquire_link
request_enquire_link-stays m = grind arith

-- Whatever method of the machine is called, its state stays or moves along an edge of the diagram.
pub step_edge : (r : Request) (m : Machine) → m.current_state ⟶ (step r m).current_state
unfolding step process_event
step_edge (binds id) m = request_bind-⟶ id m.current_state m refl
step_edge unbinds m = request_unbind-⟶ m.current_state m refl
step_edge enquires m = rw (request_enquire_link-stays m) stay
step_edge (receives event) m = process_in-⟶ m.current_state event m refl

⟶-connected : {a : SmppState} → a ⟶ connected → a ≡ connected
⟶-connected stay = refl

-- No method brings a machine to CONNECTED: a machine that is there after a run of calls was there
-- before them.
pub run-connected :
    (m : Machine) (rs : List Request)
    → (run m rs).current_state ≡ connected
    → m.current_state ≡ connected
unfolding run
run-connected m [] e = e
run-connected m (r ∷ rs) e =
    ⟶-connected (subst (λ s. m.current_state ⟶ s) (run-connected (step r m) rs e) (step_edge r m))

idle_step : (r : Request) (m : Machine) → m.current_state ≡ idle → step r m ≡ m
unfolding step process_event process_in request_bind request_unbind request_enquire_link is_bound
idle_step (binds id) m e = rw e refl
idle_step unbinds m e = rw e refl
idle_step enquires m e = rw e refl
idle_step (receives event) m e = rw e refl

-- A machine in IDLE is unchanged by any run of calls: it does not move and calls no callback.
pub idle_forever : (m : Machine) (rs : List Request) → m.current_state ≡ idle → run m rs ≡ m
unfolding run
idle_forever m [] e = refl
idle_forever m (r ∷ rs) e = ap (λ n. run n rs) (idle_step r m e) ∙ idle_forever m rs e
