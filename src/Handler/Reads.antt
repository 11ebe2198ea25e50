-- ===== src/Handler/Reads.antt =====
-- What a read does to the handler: the reads outstanding, and the invariant of every handler that the
-- steps reach.
use opensmsc.Handler.Steps.{read_completes, sends, starts, steps, write_completes}
use opensmsc.Framer.State.{Framer, feed_bytes, reset}
use opensmsc.Handler.Steps.{
  Inv, Inv-session, handle_enquire_link-Inv, handle_unbind-Inv, on_write-Inv, send_pdu-Inv,
  start-Inv, Reach, ◌⟶◌, read_completes, steps, write_completes, sends,
}
use opensmsc.Handler.Session.{SmppSession, is_bound}
use opensmsc.Handler.Binding.{accepted, bind_response_lem}
use opensmsc.Base.{
  Bool, Bool-cases, List, Option, Text, [], arith, false, if◌then◌else◌, inl, inr, length, ltb, not,
  refl, suc, true, zero, ℕ, ◌&&◌, ◌++◌, ◌-◌, ◌∙◌, ◌∷◌, ◌≡◌, ◌≤◌, text,
}
use opensmsc.Handler.Responses.{
  BindKind, bind_kind, bind_response, bound_state, build_bind_resp, build_unbind_resp,
}
use opensmsc.Handler.State.{
  Command, Handler, binding, close, dispatch_command, dispatch_pdu, do_read, do_write, drain,
  enqueue_pdu, enquiring, handle_bind, handle_enquire_link, handle_unbind, handle_unknown,
  is_complete, on_read, send_pdu, unbinding, unknown, write_front,
}

write_front-reading : (q : List (List ℕ)) (h : Handler) → (write_front q h).reading ≡ h.reading
write_front-reading [] h = refl
write_front-reading (p ∷ q) h = refl

-- Reading changes only in `do_read`.
send_pdu-reading : (bytes : List ℕ) (h : Handler) → (send_pdu bytes h).reading ≡ h.reading
unfolding enqueue_pdu do_write
send_pdu-reading bytes h = elim (Bool-cases h.write_in_progress) [
  | inl b ↦ rw b refl
  | inr b ↦ rw b (write_front-reading (h.write_queue ++ (bytes ∷ [])) _)
]

handle_unbind-reading : (seq : ℕ) (h : Handler) → (handle_unbind seq h).reading ≡ h.reading
unfolding handle_unbind
handle_unbind-reading seq h = elim (Bool-cases (is_bound h.session)) [
  | inl b ↦
      rw b (send_pdu-reading (build_unbind_resp 0 seq) (record h { close_after_write = true }))
  | inr b ↦ rw b (send_pdu-reading _ h)
]

handle_enquire_link-reading :
    (seq : ℕ) (h : Handler) → (handle_enquire_link seq h).reading ≡ h.reading
unfolding handle_enquire_link
handle_enquire_link-reading seq h = elim (Bool-cases (is_bound h.session)) [
  | inl b ↦ rw b (send_pdu-reading _ h)
  | inr b ↦ rw b (send_pdu-reading _ h)
]

binds_as :
    (b ok : Bool) (kind : BindKind) (s : SmppSession)
    → (b ≡ is_bound s)
    → (is_bound s ≡ true → s.system_id ≡ text "test")
    → let s' =
        if not b && ok then record s { state = bound_state kind; system_id = text "test" } else s in
      is_bound s' ≡ true → s'.system_id ≡ text "test"
binds_as true ok kind s e h = h
binds_as false true kind s e h = λ bound. refl
binds_as false false kind s e h = h

module _ (parse : BindKind → List ℕ → Option (Text × Text)) where
  bind_response_named :
      (command_id : ℕ) (raw_pdu : List ℕ) (seq : ℕ) (s : SmppSession)
      → (is_bound s ≡ true → s.system_id ≡ text "test")
      → let s' = (bind_response parse command_id raw_pdu seq s).1 in
        is_bound s' ≡ true → s'.system_id ≡ text "test"
  bind_response_named command_id raw_pdu seq s h =
      let kind = bind_kind command_id in
      rw (bind_response_lem parse command_id raw_pdu seq s).3
        (binds_as (is_bound s) (accepted (parse kind raw_pdu)) kind s refl h)

  handle_bind-Inv :
      (command_id : ℕ) (raw_pdu : List ℕ) (seq : ℕ) (h : Handler)
      → Inv h
      → Inv (handle_bind parse command_id raw_pdu seq h)
  unfolding handle_bind build_bind_resp
  handle_bind-Inv command_id raw_pdu seq h v =
      send_pdu-Inv _ _
        (Inv-session _ h v (bind_response_named command_id raw_pdu seq h.session v.bound_as))

  dispatch_command-Inv :
      (c : Command) (id : ℕ) (bytes : List ℕ) (seq : ℕ) (h : Handler)
      → Inv h
      → Inv (dispatch_command parse c id bytes seq h)
  unfolding handle_unknown
  dispatch_command-Inv binding id bytes seq h v = handle_bind-Inv id bytes seq h v
  dispatch_command-Inv unbinding id bytes seq h v = handle_unbind-Inv seq h v
  dispatch_command-Inv enquiring id bytes seq h v = handle_enquire_link-Inv seq h v
  dispatch_command-Inv unknown id bytes seq h v = send_pdu-Inv _ h v

  dispatch_pdu-Inv : (full_pdu : List ℕ) (h : Handler) → Inv h → Inv (dispatch_pdu parse full_pdu h)
  unfolding dispatch_pdu
  dispatch_pdu-Inv full_pdu h v = elim (Bool-cases (ltb (length full_pdu) 16)) [
    | inl short ↦ rw short v
    | inr long ↦ rw long (dispatch_command-Inv _ _ full_pdu _ h v)
  ]

  Inv-framer : (f : Framer) (h : Handler) → Inv h → Inv (record h { framer = f })
  Inv-framer f h v = record {
    one_read = v.one_read;
    one_write = v.one_write;
    writes_front = v.writes_front;
    rests = v.rests;
    bound_as = v.bound_as;
  }

  drain-Inv : (fuel : ℕ) (h : Handler) → Inv h → Inv (drain parse fuel h)
  unfolding drain
  drain-Inv zero h v = v
  drain-Inv (suc fuel) h v = elim (Bool-cases (is_complete h.framer.state)) [
    | inl c ↦
        rw (c, drain)
          (drain-Inv fuel _ (Inv-framer reset _ (dispatch_pdu-Inv h.framer.full_pdu h v)))
    | inr c ↦ rw (c, drain) v
  ]

  dispatch_command-reading :
      (c : Command) (id : ℕ) (bytes : List ℕ) (seq : ℕ) (h : Handler)
      → (dispatch_command parse c id bytes seq h).reading ≡ h.reading
  unfolding handle_bind handle_unknown
  dispatch_command-reading binding id bytes seq h = send_pdu-reading _ _
  dispatch_command-reading unbinding id bytes seq h = handle_unbind-reading seq h
  dispatch_command-reading enquiring id bytes seq h = handle_enquire_link-reading seq h
  dispatch_command-reading unknown id bytes seq h = send_pdu-reading _ h

  dispatch_pdu-reading :
      (full_pdu : List ℕ) (h : Handler) → (dispatch_pdu parse full_pdu h).reading ≡ h.reading
  unfolding dispatch_pdu
  dispatch_pdu-reading full_pdu h = elim (Bool-cases (ltb (length full_pdu) 16)) [
    | inl short ↦ rw short refl
    | inr long ↦ rw long (dispatch_command-reading _ _ full_pdu _ h)
  ]

  drain-reading : (fuel : ℕ) (h : Handler) → (drain parse fuel h).reading ≡ h.reading
  unfolding drain
  drain-reading zero h = refl
  drain-reading (suc fuel) h = elim (Bool-cases (is_complete h.framer.state)) [
    | inl c ↦ rw (c, drain) (drain-reading fuel _ ∙ dispatch_pdu-reading h.framer.full_pdu h)
    | inr c ↦ rw (c, drain) refl
  ]

  do_read-Inv : (h : Handler) → h.reading ≡ 0 → Inv h → Inv (do_read h)
  unfolding do_read
  do_read-Inv h none_left v = record {
    one_read = ground arith;
    one_write = v.one_write;
    writes_front = v.writes_front;
    rests = v.rests;
    bound_as = v.bound_as;
  }

  Inv-reading : (n : ℕ) (h : Handler) → n ≤ 1 → Inv h → Inv (record h { reading = n })
  Inv-reading n h b v = record {
    one_read = b;
    one_write = v.one_write;
    writes_front = v.writes_front;
    rests = v.rests;
    bound_as = v.bound_as;
  }

  Inv-close : (h : Handler) → Inv h → Inv (close h)
  unfolding close
  Inv-close h v = record {
    one_read = v.one_read;
    one_write = v.one_write;
    writes_front = v.writes_front;
    rests = v.rests;
    bound_as = v.bound_as;
  }

  on_read-Inv :
      (failed : Bool) (bytes : List ℕ) (h : Handler)
      → h.reading ≡ 0
      → Inv h
      → Inv (on_read parse failed bytes h)
  unfolding on_read
  on_read-Inv true bytes h z v = Inv-close h v
  on_read-Inv false bytes h z v =
      let h' = record h { framer = (feed_bytes bytes h.framer).0 } in
      do_read-Inv _ (drain-reading 1 h' ∙ z) (drain-Inv 1 h' (Inv-framer _ h v))

  step-Inv : {h h' : Handler} → ◌⟶◌ parse h h' → Inv h → Inv h'
  step-Inv (read_completes {h} failed bytes r) v =
      let none_left : h.reading - 1 ≡ 0 = let one = v.one_read in omega arith in
      on_read-Inv failed bytes _ none_left (Inv-reading _ h (let one = v.one_read in omega arith) v)
  step-Inv (write_completes failed w) v = on_write-Inv failed _ w v
  step-Inv (sends bytes) v = send_pdu-Inv bytes _ v

  -- Whatever the server sends, whatever arrives and in whatever order asio completes its operations: a
  -- handler that was started never has two reads or two writes outstanding, a write is outstanding only
  -- while one is marked as in progress and the queue is not empty, the queue is empty when none is
  -- marked, and a session that is bound has the system_id "test".
  pub Reach-Inv : (id : Text) {h : Handler} → Reach parse id h → Inv h
  Reach-Inv id starts = start-Inv id
  Reach-Inv id (steps r s) = step-Inv s (Reach-Inv id r)
