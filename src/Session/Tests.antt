-- ===== src/Session/Tests.antt =====
-- Concrete sessions, on which the theorems about sessions are applied.
use opensmsc.Session.Atomic.{thread_run-deliver_sm_call}
use opensmsc.Session.Submit.{deliver_sm_call}
use opensmsc.Session.Threads.{Delivery, looped_all, quiet, tested, thread_run, went_on}
use opensmsc.Pdu.Build.{make_deliver_sm, make_response}
use opensmsc.Session.Framing.{asked_and_called, torn_answer}
use opensmsc.Session.Line.{LineEvent, all_done, line_run, new_line}
use opensmsc.Session.Lifecycle.{step-⟶, ◌⟶◌}
use opensmsc.Pdu.Wire.{Header, decode_header, read_u32}
use opensmsc.Session.State.{Session, World, create, token, bound_rx, Effect, sent}
use opensmsc.Session.Answers.{HasU32Codes, answer_id, dispatch_answers, sents}
use opensmsc.Pdu.Constants.{enquire_link, enquire_link_resp, esme_rok}
use opensmsc.Session.Throttle.{checks, checks_bounded}
use opensmsc.Session.Dispatch.{
  Input, command_of, disconnect_call, dispatch, header_read, run, step, timer_fired,
}
use opensmsc.Base.{
  List, [], arith, false, length, none, refl, some, true, ℕ, ◌*◌, ◌+◌, ◌-◌, ◌∷◌, ◌≡◌, ◌≤◌, text,
  drop, take, ◌++◌,
}
use opensmsc.Session.Invariant.{Inv, run-create-Inv}

-- A world in which the authenticator accepts everybody.
abbrev at_time : ℕ → World
at_time ns = record {
  authenticate = λ u sid pass ip. some (true, 0);
  system_seconds = 100;
  steady_ns = ns;
}

abbrev session : Session
session = create (text "11112222-3333") (text "10.0.0.1") 30 10 2 (at_time 0)

abbrev asked : Header
asked = record {
  command_length = 16;
  command_id = enquire_link;
  command_status = 0;
  sequence_number = 3;
}

HasU32Codes-at_time : HasU32Codes (at_time 5)
HasU32Codes-at_time u sid pass ip = omega arith

dispatch_answers_example :
    (pdu : List ℕ) × (sents (dispatch asked [] (at_time 5) session).log ≡ pdu ∷ sents session.log)
    × ((decode_header pdu).sequence_number ≡ asked.sequence_number)
    × ((decode_header pdu).command_id ≡ answer_id (command_of asked.command_id) asked.command_id)
    × ((decode_header pdu).command_length ≡ length pdu)
unfolding create command_of
dispatch_answers_example =
    dispatch_answers asked [] (at_time 5) session refl (omega arith) HasU32Codes-at_time
      (omega arith)

abbrev inputs : List (Input × World)
inputs =
    (header_read none [], at_time 1)
    ∷ (timer_fired false, at_time 2)
    ∷ (disconnect_call (text "bye"), at_time 3)
    ∷ []

run-create-Inv_example : Inv (run (create (text "1") (text "10.0.0.1") 30 10 2 (at_time 0)) inputs)
run-create-Inv_example = run-create-Inv (text "1") (text "10.0.0.1") 30 10 2 (at_time 0) inputs

step-⟶_example : session.state ⟶ (step (disconnect_call (text "bye")) (at_time 3) session).state
step-⟶_example = step-⟶ (disconnect_call (text "bye")) (at_time 3) session

checks_bounded_example :
    (checks session (at_time 1 ∷ at_time 2 ∷ at_time 3 ∷ [])).0 * token
    ≤ session.max_submit_per_sec * token
      + ((checks session (at_time 1 ∷ at_time 2 ∷ at_time 3 ∷ [])).1.tb_last_refill
          - session.tb_last_refill)
        * session.max_submit_per_sec
unfolding create
checks_bounded_example =
    checks_bounded (at_time 1 ∷ at_time 2 ∷ at_time 3 ∷ []) session (λ e. omega arith) (omega arith)
      (ground arith)

-- The header of an enquire_link with sequence number 3.
abbrev enquiry : List ℕ
enquiry = 0 ∷ 0 ∷ 0 ∷ 16 ∷ 0 ∷ 0 ∷ 0 ∷ 0x15 ∷ 0 ∷ 0 ∷ 0 ∷ 0 ∷ 0 ∷ 0 ∷ 0 ∷ 3 ∷ []

abbrev receiver : Session
receiver = record session { state = bound_rx }

torn_answer_example :
    let answer = make_response enquire_link_resp esme_rok 3 [] in
    let deliver = make_deliver_sm 0x2000_0000 (text "1") (text "2") (text "hi") 0 0 0 0 in
    (parts : List LineEvent) × (let l =
        line_run
          (line_run
            (new_line receiver)
            (asked_and_called enquiry (text "1") (text "2") (text "hi") (at_time 1)))
          parts in
      (l.wire ≡ take 6 answer ++ (deliver ++ drop 6 answer)) × (all_done l.writes ≡ true))
unfolding read_u32 decode_header create
torn_answer_example =
    torn_answer receiver enquiry (text "1") (text "2") (text "hi") (at_time 1) 6 refl
      (unfold decode_header in refl) (unfold decode_header in refl)

abbrev bye : List (Input × World)
bye = (disconnect_call (text "bye"), at_time 2) ∷ []

abbrev hello : Delivery
hello = record { src_addr = text "1"; dst_addr = text "2"; short_message = text "hi" }

-- The session is closed between the test and the send of a DeliverSm.
thread_run-deliver_sm_call_example :
    let deliver = sent (make_deliver_sm 0x2000_0000 (text "1") (text "2") (text "hi") 0 0 0 0) in
    let early = run (deliver_sm_call (text "1") (text "2") (text "hi") receiver).1 bye in
    (pushed : List Effect) × (early.log ≡ pushed ++ (deliver ∷ []))
    × (thread_run (quiet receiver) (tested hello ∷ looped_all bye (went_on ∷ [])) ≡ record {
      session = record early { log = deliver ∷ (pushed ++ []) };
      passed = none;
      answers = some 0x2000_0000 ∷ [];
    })
unfolding create
thread_run-deliver_sm_call_example = thread_run-deliver_sm_call receiver hello bye refl refl
