-- ===== src/Session/Line.antt =====
-- A session with its socket. `send_pdu` starts an `asio::async_write`, which writes its buffer by parts as
-- the socket takes them, and does not look whether another write is outstanding: asio does not order the
-- parts of writes that are outstanding together. The socket of an unbound session is closed and takes
-- nothing; what asio hands over of a write at its start, before the step that begins it closes the socket
-- (handle_unbind), is left out.
use opensmsc.Session.Keepalive.{is_unbound}
use opensmsc.Session.Answers.{sents}
use opensmsc.Session.Dispatch.{Input, step}
use opensmsc.Base.{
  Bool, List, [], drop, false, get_or, length, set, take, true, ℕ, ◌++◌, ◌-◌, ◌∷◌, if◌then◌else◌,
}
use opensmsc.Session.State.{Session, World}

-- `wire` holds the bytes that the socket has taken, `begun` the buffers of all writes and `writes` what is
-- left to write of each, newest first.
pub record Line : Type 0 where
  pub session : Session
  pub wire : List ℕ
  pub begun : List (List ℕ)
  pub writes : List (List ℕ)

-- The session handles an input, or the socket takes n bytes of the write that stands at i.
pub data LineEvent : Type 0 where
  handled : Input → World → LineEvent
  wrote : ℕ → ℕ → LineEvent

-- What the session has sent between two of its states, newest first.
abbrev pub sent_between : Session → Session → List (List ℕ)
sent_between s s' = take (length (sents s'.log) - length (sents s.log)) (sents s'.log)

unfoldable pub line_step : LineEvent → Line → Line
line_step (handled i w) l =
    let s = step i w l.session in
    let pdus = sent_between l.session s in
    record l { session = s; begun = pdus ++ l.begun; writes = pdus ++ l.writes }
line_step (wrote i n) l =
    let left = get_or l.writes i [] in
    if is_unbound l.session.state
    then l
    else record l { wire = l.wire ++ take n left; writes = set l.writes i (drop n left) }

unfoldable pub line_run : Line → List LineEvent → Line
line_run l [] = l
line_run l (e ∷ events) = line_run (line_step e l) events

abbrev pub new_line : Session → Line
new_line s = record { session = s; wire = []; begun = []; writes = [] }

abbrev pub all_done : List (List ℕ) → Bool
all_done [] = true
all_done ([] ∷ writes) = all_done writes
all_done ((b ∷ bs) ∷ writes) = false
