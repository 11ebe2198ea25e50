-- ===== src/Session/Threads.antt =====
-- DeliverSm on the D-Bus thread beside the event loop: it holds the mutex for the test of the state only,
-- so the loop can run between the test and the send.
use opensmsc.Pdu.Build.{make_deliver_sm}
use opensmsc.Session.Submit.{can_receive}
use opensmsc.Session.LoopFrames.{of_loop}
use opensmsc.Session.Dispatch.{Input, step}
use opensmsc.Session.State.{Session, World, send_pdu}
use opensmsc.Base.{Bool, List, Option, Text, [], false, none, some, true, u32, ℕ, ◌&&◌, ◌+◌, ◌∷◌}

-- What DeliverSm does behind its test: the sequence number, and the session.
unfoldable pub deliver_send : Text → Text → Text → Session → ℕ × Session
deliver_send src_addr dst_addr short_message s =
    let seq = s.deliver_seq in
    let s = record s { deliver_seq = u32 (seq + 1) } in
    (seq, send_pdu (make_deliver_sm seq src_addr dst_addr short_message 0 0 0 0) s)

pub record Delivery : Type 0 where
  pub src_addr : Text
  pub dst_addr : Text
  pub short_message : Text

-- The session, the call whose test has passed, and what the calls have answered, newest first: a sequence
-- number, or `none` for the error InvalidBindState.
pub record Threads : Type 0 where
  pub session : Session
  pub passed : Option Delivery
  pub answers : List (Option ℕ)

pub data ThreadEvent : Type 0 where
  -- the event loop runs an input
  looped : Input → World → ThreadEvent
  -- the D-Bus thread tests the state for a call, and goes on with it
  tested : Delivery → ThreadEvent
  went_on : ThreadEvent

abbrev pub test_for : Bool → Delivery → Threads → Threads
test_for true c t = record t { passed = some c }
test_for false c t = record t { answers = none ∷ t.answers }

abbrev pub go_on : Option Delivery → Threads → Threads
go_on none t = t
go_on (some c) t =
    let (seq, s) = deliver_send c.src_addr c.dst_addr c.short_message t.session in
    record { session = s; passed = none; answers = some seq ∷ t.answers }

unfoldable pub thread_step : ThreadEvent → Threads → Threads
thread_step (looped i w) t = record t { session = step i w t.session }
thread_step (tested c) t = test_for (can_receive t.session.state) c t
thread_step went_on t = go_on t.passed t

unfoldable pub thread_run : Threads → List ThreadEvent → Threads
thread_run t [] = t
thread_run t (e ∷ events) = thread_run (thread_step e t) events

abbrev pub quiet : Session → Threads
quiet s = record { session = s; passed = none; answers = [] }

-- The loop runs its inputs before the rest.
abbrev pub looped_all : List (Input × World) → List ThreadEvent → List ThreadEvent
looped_all [] rest = rest
looped_all ((i, w) ∷ inputs) rest = looped i w ∷ looped_all inputs rest

abbrev pub all_of_loop : List (Input × World) → Bool
all_of_loop [] = true
all_of_loop ((i, w) ∷ inputs) = of_loop i && all_of_loop inputs
