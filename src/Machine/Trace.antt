-- ===== src/Machine/Trace.antt =====
-- The calls of the transition callback of `SmppStateMachine`.
--
-- `Told s cs`: the transitions among the calls cs, newest first, are each from where the one before
-- arrived, and the newest arrived at s.
use opensmsc.Machine.Diagram.{request_enquire_link-stays}
use opensmsc.Machine.Events.{
  Request, binds, enquires, handle_bind_response, handle_event_in_binding, handle_event_in_bound,
  handle_event_in_unbinding, handle_unbind_response, process_event, process_in, receives,
  request_bind, request_unbind, run, step, unbinds,
}
use opensmsc.Base.{
  List, Text, [], true, ◌==◌, ◌∷◌, ◌≡◌, Bool, Bool-cases, false, if◌then◌else◌, inl, inr, ℕ, refl,
}
use opensmsc.Machine.State.{
  Callback, Machine, SmppEvent, SmppState, bind_succeeded, failed, number, transitioned,
  unbind_succeeded, binding, bound_rx, bound_trx, bound_tx, call_if, cmd_enquire_link, cmd_unbind,
  cmd_unbind_resp, connected, disconnected, error_state, handle_error, idle, is_bind_response,
  status_rok, transition_to, unbinding, is_bound,
}

pub data Told (start : SmppState) : SmppState → List Callback → Type 0 where
  nothing_yet : Told start start []
  moved :
      {a b : SmppState} {cs : List Callback}
      → Told start a cs
      → Told start b (transitioned a b ∷ cs)
  bound :
      {a : SmppState} {cs : List Callback} {e : SmppEvent}
      → Told start a cs
      → Told start a (bind_succeeded e ∷ cs)
  unbound :
      {a : SmppState} {cs : List Callback} {e : SmppEvent}
      → Told start a cs
      → Told start a (unbind_succeeded e ∷ cs)
  erred :
      {a : SmppState} {cs : List Callback} {t : Text}
      → Told start a cs
      → Told start a (failed t ∷ cs)

unfoldable pub IsTold : SmppState → Machine → Type 0
IsTold start m = (m.has_transition_callback ≡ true) × Told start m.current_state m.calls

module _ (start : SmppState) where
  transition_to-IsTold :
      (b : SmppState) (m : Machine) → IsTold start m → IsTold start (transition_to b m)
  unfolding transition_to IsTold
  transition_to-IsTold b m (t, told) = elim (Bool-cases (number m.current_state == number b)) [
    | inl same ↦ rw same (t, told)
    | inr moves ↦ rw moves (rw t (refl, moved told))
  ]

  bind_succeeded-IsTold :
      (set : Bool) (e : SmppEvent) (m : Machine)
      → IsTold start m
      → IsTold start (call_if set (bind_succeeded e) m)
  unfolding IsTold
  bind_succeeded-IsTold true e m (t, told) = (t, bound told)
  bind_succeeded-IsTold false e m (t, told) = (t, told)

  unbind_succeeded-IsTold :
      (set : Bool) (e : SmppEvent) (m : Machine)
      → IsTold start m
      → IsTold start (call_if set (unbind_succeeded e) m)
  unfolding IsTold
  unbind_succeeded-IsTold true e m (t, told) = (t, unbound told)
  unbind_succeeded-IsTold false e m (t, told) = (t, told)

  failed-IsTold :
      (set : Bool) (e : Text) (m : Machine)
      → IsTold start m
      → IsTold start (call_if set (failed e) m)
  unfolding IsTold
  failed-IsTold true e m (t, told) = (t, erred told)
  failed-IsTold false e m (t, told) = (t, told)

  if-IsTold :
      (b : Bool) (m n : Machine)
      → IsTold start m
      → IsTold start n
      → IsTold start (if b then m else n)
  if-IsTold true m n p q = p
  if-IsTold false m n p q = q

  handle_error-IsTold : (e : Text) (m : Machine) → IsTold start m → IsTold start (handle_error e m)
  unfolding handle_error
  handle_error-IsTold e m h = failed-IsTold _ e _ (transition_to-IsTold error_state m h)

  bound-IsTold :
      (event : SmppEvent) (m : Machine)
      → IsTold start m
      → IsTold start (handle_event_in_bound event m)
  unfolding handle_event_in_bound
  bound-IsTold event m h =
      if-IsTold (event.command_id == cmd_enquire_link) _ _ h
        (if-IsTold (event.command_id == cmd_unbind) _ _ (transition_to-IsTold unbinding m h) h)

  process_in-IsTold :
      (st : SmppState) (event : SmppEvent) (m : Machine)
      → IsTold start m
      → IsTold start (process_in st event m)
  unfolding process_in handle_event_in_binding handle_event_in_bound handle_event_in_unbinding
      handle_bind_response handle_unbind_response
  process_in-IsTold idle event m h = h
  process_in-IsTold connected event m h = h
  process_in-IsTold binding event m h =
      if-IsTold (is_bind_response event.command_id) _ _
        (if-IsTold (event.status_code == status_rok) _ _
          (bind_succeeded-IsTold _ event _ (transition_to-IsTold _ m h))
          (transition_to-IsTold disconnected _ (handle_error-IsTold _ m h)))
        (handle_error-IsTold _ m h)
  process_in-IsTold bound_tx event m h = bound-IsTold event m h
  process_in-IsTold bound_rx event m h = bound-IsTold event m h
  process_in-IsTold bound_trx event m h = bound-IsTold event m h
  process_in-IsTold unbinding event m h =
      if-IsTold (event.command_id == cmd_unbind_resp) _ _
        (if-IsTold (event.status_code == status_rok) _ _
          (unbind_succeeded-IsTold _ event _ (transition_to-IsTold disconnected m h))
          (transition_to-IsTold error_state _ (handle_error-IsTold _ m h)))
        (handle_error-IsTold _ m h)
  process_in-IsTold disconnected event m h = h
  process_in-IsTold error_state event m h = h

  answer-IsTold :
      (b : Bool) (m n : Machine)
      → IsTold start m
      → IsTold start n
      → IsTold start (if◌then◌else◌ {A = Bool × Machine} b (true, m) (false, n)).1
  answer-IsTold true m n p q = p
  answer-IsTold false m n p q = q

  request_bind-IsTold : (id : ℕ) (m : Machine) → IsTold start m → IsTold start (request_bind id m).1
  unfolding request_bind
  request_bind-IsTold id m h = elim (Bool-cases (number m.current_state == number connected)) [
    | inl here ↦ rw here (answer-IsTold _ _ _ (transition_to-IsTold binding m h) h)
    | inr elsewhere ↦ rw elsewhere h
  ]

  request_unbind-IsTold : (m : Machine) → IsTold start m → IsTold start (request_unbind m).1
  unfolding request_unbind
  request_unbind-IsTold m h =
      answer-IsTold (is_bound m.current_state) _ _ (transition_to-IsTold unbinding m h) h

  step-IsTold : (r : Request) (m : Machine) → IsTold start m → IsTold start (step r m)
  unfolding step process_event
  step-IsTold (binds id) m h = request_bind-IsTold id m h
  step-IsTold unbinds m h = request_unbind-IsTold m h
  step-IsTold enquires m h = rw (request_enquire_link-stays m) h
  step-IsTold (receives event) m h = process_in-IsTold m.current_state event m h

  -- If the transition callback is set and what it has been told so far, from the state `start` on, is the
  -- path to the machine's state, then so it is after any run of calls: each transition that it is told
  -- starts where the one before ended, and the last one ends in the machine's state.
  pub run-IsTold : (m : Machine) (rs : List Request) → IsTold start m → IsTold start (run m rs)
  unfolding run
  run-IsTold m [] h = h
  run-IsTold m (r ∷ rs) h = run-IsTold (step r m) rs (step-IsTold r m h)
