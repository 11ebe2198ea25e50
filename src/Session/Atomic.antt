-- ===== src/Session/Atomic.antt =====
-- DeliverSm in its parts, beside the event loop, against DeliverSm as one step.
use opensmsc.Pdu.Build.{make_deliver_sm}
use opensmsc.Session.Dispatch.{Input, run, step}
use opensmsc.Session.State.{Effect, Session, World, sent}
use opensmsc.Session.Frames.{Frames, keep-Frames, put, then-Frames}
use opensmsc.Session.Submit.{can_receive, deliver_sm_call}
use opensmsc.Base.{
  List, Text, [], arith, none, refl, some, true, u32, ◌++◌, ◌+◌, ◌∷◌, ◌≡◌, ap, sym, ℕ, ◌∙◌,
}
use opensmsc.Session.LoopFrames.{of_loop, step-Frames}
use opensmsc.Session.Threads.{
  Delivery, ThreadEvent, Threads, all_of_loop, deliver_send, looped_all, quiet, tested, thread_run,
  thread_step, went_on, go_on, test_for,
}

run-Frames :
    (s : Session) (inputs : List (Input × World))
    → all_of_loop inputs ≡ true
    → Frames (λ t. run t inputs) s
unfolding run
run-Frames s [] h = keep-Frames s
run-Frames s ((i, w) ∷ inputs) h =
    let now : of_loop i ≡ true = ground arith in
    let later : all_of_loop inputs ≡ true = ground arith in
    then-Frames (λ t. run t inputs) (step i w) s (step-Frames i w s now)
      (run-Frames (step i w s) inputs later)

thread_run-looped_all :
    (t : Threads) (inputs : List (Input × World)) (rest : List ThreadEvent)
    → thread_run t (looped_all inputs rest)
      ≡ thread_run (record t { session = run t.session inputs }) rest
unfolding thread_run thread_step run
thread_run-looped_all t [] rest = refl
thread_run-looped_all t ((i, w) ∷ inputs) rest =
    thread_run-looped_all (record t { session = step i w t.session }) inputs rest

deliver_sm_call-put :
    (src dst message : Text) (s : Session)
    → can_receive s.state ≡ true
    → (deliver_sm_call src dst message s).1
      ≡ put
          (u32 (s.deliver_seq + 1))
          (sent (make_deliver_sm s.deliver_seq src dst message 0 0 0 0) ∷ s.log)
          s
unfolding deliver_sm_call
deliver_sm_call-put src dst message s r = rw (deliver_sm_call, r) refl

-- A session whose last effect is the send, and the call's answer.
abbrev sent_last : Effect → List Effect → ℕ → Session → Threads
sent_last deliver log seq t = record {
  session = record t { log = deliver ∷ log };
  passed = none;
  answers = some seq ∷ [];
}

-- The event loop runs any inputs between the test of a DeliverSm call and its send. Then the call answers
-- the number that it would have answered at once, and the session ends as if the whole call had come
-- before these inputs, but its deliver_sm is sent behind all that they did, also behind the close of the
-- socket if they end the session.
pub thread_run-deliver_sm_call :
    (s : Session) (c : Delivery) (inputs : List (Input × World))
    → can_receive s.state ≡ true
    → all_of_loop inputs ≡ true
    → let deliver =
        sent (make_deliver_sm s.deliver_seq c.src_addr c.dst_addr c.short_message 0 0 0 0) in
      let early = run (deliver_sm_call c.src_addr c.dst_addr c.short_message s).1 inputs in
      (pushed : List Effect) × (early.log ≡ pushed ++ (deliver ∷ s.log))
      × (thread_run (quiet s) (tested c ∷ looped_all inputs (went_on ∷ [])) ≡ record {
        session = record early { log = deliver ∷ (pushed ++ s.log) };
        passed = none;
        answers = some s.deliver_seq ∷ [];
      })
unfolding thread_run thread_step deliver_send
thread_run-deliver_sm_call s c inputs r loops =
    let (pushed, by) = run-Frames s inputs loops in
    let deliver =
      sent (make_deliver_sm s.deliver_seq c.src_addr c.dst_addr c.short_message 0 0 0 0) in
    let early_put =
      ap (λ (t : Session). run t inputs)
        (deliver_sm_call-put c.src_addr c.dst_addr c.short_message s r)
      ∙ by (u32 (s.deliver_seq + 1)) (deliver ∷ s.log) in
    (
      pushed,
      ap (λ (t : Session). t.log) early_put,
      ap (λ b. thread_run (test_for b c (quiet s)) (looped_all inputs (went_on ∷ []))) r
          ∙ thread_run-looped_all (record (quiet s) { passed = some c }) inputs (went_on ∷ [])
          ∙ ap (λ (t : Session). go_on (some c) (record (quiet t) { passed = some c }))
              (by s.deliver_seq s.log)
          ∙ sym (ap (sent_last deliver (pushed ++ s.log) s.deliver_seq) early_put),
    )
