-- ===== src/Session/Framing.antt =====
-- When PDUs stay whole on the socket, and when they do not.
use mathlib.Core.Bool.{false≢true}
use opensmsc.Session.Keepalive.{is_unbound}
use opensmsc.Session.Answers.{sents}
use opensmsc.Pdu.Build.{make_deliver_sm, make_response}
use opensmsc.Pdu.Constants.{enquire_link, enquire_link_resp, esme_rok}
use opensmsc.Pdu.Wire.{decode_header}
use opensmsc.Session.Submit.{can_receive, deliver_sm_call}
use opensmsc.Session.Dispatch.{
  step, deliver_call, header_read, command_of, dispatch, dispatch_command, handle_enquire_link,
  on_header, read_body,
}
use opensmsc.Session.State.{
  Session, World, read_header, send_pdu, SessionState, bound_rx, bound_trx, bound_tx, opened,
  unbound,
}
use mathlib.Core.List.{append_assoc}
use opensmsc.Base.{
  List, [], ap, drop, refl, suc, take, true, zero, ℕ, ◌++◌, ◌∷◌, ◌≡◌, arith, Text, length, none,
  ◌≤◌, length-drop, take_all, u32, ◌+◌, ◌-◌, false,
}
use opensmsc.Session.Line.{
  Line, LineEvent, all_done, handled, line_step, wrote, line_run, new_line, sent_between,
}

sent_between_one :
    (s s' : Session) (pdu : List ℕ)
    → sents s'.log ≡ pdu ∷ sents s.log
    → sent_between s s' ≡ pdu ∷ []
sent_between_one s s' pdu e =
    let n : ℕ = length (sents s.log) in let one : suc n - n ≡ 1 = omega arith in rw (e, one) refl

drop_all : (xs : List ℕ) (n : ℕ) → length xs ≤ n → drop n xs ≡ []
drop_all [] zero h = refl
drop_all [] (suc n) h = refl
drop_all (x ∷ xs) zero h = absurd (omega arith)
drop_all (x ∷ xs) (suc n) h = drop_all xs n (omega arith)

-- Of two writes that are outstanding together the older is written up to n, then the newer, and then the
-- rest of the older.
abbrev tear : ℕ → List ℕ → List ℕ → List LineEvent
tear n p q = wrote 1 n ∷ wrote 0 (length q) ∷ wrote 1 (length p) ∷ []

line_run-tear :
    (n : ℕ) (p q : List ℕ) (l : Line)
    → is_unbound l.session.state ≡ false
    → l.wire ≡ []
    → l.writes ≡ q ∷ p ∷ []
    → ((line_run l (tear n p q)).wire ≡ take n p ++ (q ++ drop n p))
      × (all_done (line_run l (tear n p q)).writes ≡ true)
unfolding line_run line_step
line_run-tear n p q l live none_yet both =
    let short : length (drop n p) ≤ length p = omega (arith, length-drop n p) in
    (
      rw
          (
            live,
            live,
            live,
            none_yet,
            both,
            take_all (length q) q (omega arith),
            take_all (length p) (drop n p) short,
          )
          (append_assoc (take n p) q (drop n p)),
      rw
          (
            live,
            live,
            live,
            both,
            drop_all q (length q) (omega arith),
            drop_all (drop n p) (length p) short,
          )
          refl,
    )

-- An enquire_link is read and answered, and DeliverSm is called on the D-Bus thread.
abbrev pub asked_and_called : List ℕ → Text → Text → Text → World → List LineEvent
asked_and_called buf src dst message w =
    handled (header_read none buf) w ∷ handled (deliver_call src dst message) w ∷ []

abbrev answer_to : List ℕ → List ℕ
answer_to buf = make_response enquire_link_resp esme_rok (decode_header buf).sequence_number []

step-answer :
    (s : Session) (buf : List ℕ) (w : World)
    → (decode_header buf).command_length ≡ 16
    → (decode_header buf).command_id ≡ enquire_link
    → step (header_read none buf) w s ≡ read_header (send_pdu (answer_to buf) s)
unfolding step on_header read_body dispatch dispatch_command command_of handle_enquire_link
step-answer s buf w len id = rw (len, id) refl

step-deliver :
    (s : Session) (src dst message : Text) (w : World)
    → can_receive s.state ≡ true
    → step (deliver_call src dst message) w s
      ≡ send_pdu
          (make_deliver_sm s.deliver_seq src dst message 0 0 0 0)
          (record s { deliver_seq = u32 (s.deliver_seq + 1) })
unfolding step deliver_sm_call
step-deliver s src dst message w r = rw (step, deliver_sm_call, r) refl

wire_empty :
    (s : Session) (buf : List ℕ) (src dst message : Text) (w : World)
    → (line_run (new_line s) (asked_and_called buf src dst message w)).wire ≡ []
unfolding line_run line_step
wire_empty s buf src dst message w = refl

receiving_live : (st : SessionState) → can_receive st ≡ true → is_unbound st ≡ false
receiving_live opened h = absurd (false≢true h)
receiving_live bound_tx h = refl
receiving_live bound_rx h = refl
receiving_live bound_trx h = refl
receiving_live unbound h = absurd (false≢true h)

still_live :
    (s : Session) (buf : List ℕ) (src dst message : Text) (w : World)
    → can_receive s.state ≡ true
    → (decode_header buf).command_length ≡ 16
    → (decode_header buf).command_id ≡ enquire_link
    → is_unbound (line_run (new_line s) (asked_and_called buf src dst message w)).session.state
      ≡ false
unfolding line_run line_step
still_live s buf src dst message w r len id =
    rw
      (
        step-answer s buf w len id,
        step-deliver (read_header (send_pdu (answer_to buf) s)) src dst message w r,
      )
      (receiving_live s.state r)

abbrev delivered_to : Session → Text → Text → Text → List ℕ
delivered_to s src dst message = make_deliver_sm s.deliver_seq src dst message 0 0 0 0

line_run-asked_and_called :
    (s : Session) (buf : List ℕ) (src dst message : Text) (w : World)
    → can_receive s.state ≡ true
    → (decode_header buf).command_length ≡ 16
    → (decode_header buf).command_id ≡ enquire_link
    → (line_run (new_line s) (asked_and_called buf src dst message w)).writes
      ≡ delivered_to s src dst message ∷ answer_to buf ∷ []
unfolding line_run line_step
line_run-asked_and_called s buf src dst message w r len id =
    let s1 : Session = read_header (send_pdu (answer_to buf) s) in
    let s2 : Session = step (deliver_call src dst message) w s1 in
    let second : sent_between s1 s2 ≡ delivered_to s src dst message ∷ [] =
      sent_between_one s1 s2 _ (ap (λ s. sents s.log) (step-deliver s1 src dst message w r)) in
    rw (step-answer s buf w len id, second, sent_between_one s s1 (answer_to buf) refl) refl

-- The answer to an enquire_link is begun and not complete when DeliverSm is called. Then there are parts
-- of the two writes, for every place in the answer, with which both are complete and the deliver_sm has
-- got into the middle of the answer.
pub torn_answer :
    (s : Session) (buf : List ℕ) (src dst message : Text) (w : World) (n : ℕ)
    → can_receive s.state ≡ true
    → (decode_header buf).command_length ≡ 16
    → (decode_header buf).command_id ≡ enquire_link
    → let answer =
        make_response enquire_link_resp esme_rok (decode_header buf).sequence_number [] in
      let deliver = make_deliver_sm s.deliver_seq src dst message 0 0 0 0 in
      (parts : List LineEvent) × (let l =
          line_run (line_run (new_line s) (asked_and_called buf src dst message w)) parts in
        (l.wire ≡ take n answer ++ (deliver ++ drop n answer)) × (all_done l.writes ≡ true))
torn_answer s buf src dst message w n r len id =
    let answer = answer_to buf in
    let deliver = delivered_to s src dst message in
    (
      tear n answer deliver,
      line_run-tear n answer deliver _ (still_live s buf src dst message w r len id)
          (wire_empty s buf src dst message w)
          (line_run-asked_and_called s buf src dst message w r len id),
    )
