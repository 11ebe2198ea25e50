-- ===== src/Handler/Steps.antt =====
-- The handler under the completions of its reads and writes: at any time asio may complete an
-- operation that is outstanding, and the server may send a PDU.
use opensmsc.Handler.State.{
  Handler, create_handler, do_read, do_write, enqueue_pdu, is_empty, on_read, on_write, send_pdu,
  start, close, handle_enquire_link, handle_unbind, pop_front, write_front,
}
use opensmsc.Handler.Responses.{BindKind, build_unbind_resp}
use opensmsc.Handler.Session.{is_bound, new_session, SmppSession, set_state}
use opensmsc.Base.{
  Bool, List, Option, Text, [], arith, false, refl, true, ℕ, ◌++◌, ◌-◌, ◌<◌, ◌∷◌, ◌≡◌, ◌≤◌, text,
  Bool-cases, inl, inr, if◌then◌else◌,
}

module _ (parse : BindKind → List ℕ → Option (Text × Text)) where
  infix 40 ◌⟶◌
  pub data ◌⟶◌ : Handler → Handler → Type 0 where
    read_completes :
        {h : Handler} (failed : Bool) (bytes : List ℕ)
        → 0 < h.reading
        → h ⟶ on_read parse failed bytes (record h { reading = h.reading - 1 })
    write_completes :
        {h : Handler} (failed : Bool)
        → 0 < h.writing
        → h ⟶ on_write failed (record h { writing = h.writing - 1 })
    sends : {h : Handler} (bytes : List ℕ) → h ⟶ send_pdu bytes h

  pub data Reach (id : Text) : Handler → Type 0 where
    starts : Reach id (start (create_handler id))
    steps : {h h' : Handler} → Reach id h → h ⟶ h' → Reach id h'

-- asio forbids a second write on a socket, and a second read into the buffer, while one is outstanding.
pub record Inv (h : Handler) : Type 0 where
  pub one_read : h.reading ≤ 1
  pub one_write : h.writing ≤ 1
  pub writes_front : 0 < h.writing → (h.write_in_progress ≡ true) × (is_empty h.write_queue ≡ false)
  pub rests : h.write_in_progress ≡ false → is_empty h.write_queue ≡ true
  pub bound_as : is_bound h.session ≡ true → h.session.system_id ≡ text "test"

pub start-Inv : (id : Text) → Inv (start (create_handler id))
unfolding start create_handler do_read new_session is_bound
start-Inv id = ground arith

push-nonempty : (q : List (List ℕ)) (bytes : List ℕ) → is_empty (q ++ (bytes ∷ [])) ≡ false
push-nonempty [] bytes = refl
push-nonempty (p ∷ q) bytes = refl

pub send_pdu-Inv : (bytes : List ℕ) (h : Handler) → Inv h → Inv (send_pdu bytes h)
unfolding enqueue_pdu do_write
send_pdu-Inv bytes h v = ground (arith, push-nonempty h.write_queue bytes)

-- A write that succeeded has left the queue q.
after_write-Inv :
    (q : List (List ℕ)) (h : Handler)
    → h.writing ≡ 0
    → h.write_in_progress ≡ true
    → Inv h
    → Inv (
        if h.close_after_write
        then close (record h { write_queue = q })
        else if is_empty q
        then record h { write_queue = q; write_in_progress = false }
        else write_front q (record h { write_queue = q }))
unfolding close
after_write-Inv [] h w b v = ground arith
after_write-Inv (p ∷ q) h w b v = ground arith

finished-Inv :
    (h : Handler)
    → 0 < h.writing
    → Inv h
    → (h.writing - 1 ≡ 0)
      × (h.write_in_progress ≡ true)
      × Inv (record h { writing = h.writing - 1 })
finished-Inv h w v = ground arith

pub on_write-Inv :
    (failed : Bool) (h : Handler)
    → 0 < h.writing
    → Inv h
    → Inv (on_write failed (record h { writing = h.writing - 1 }))
unfolding on_write close do_write
on_write-Inv true h w v = ground arith
on_write-Inv false h w v =
    let (none_left, busy, v') = finished-Inv h w v in
    after_write-Inv (pop_front h.write_queue) (record h { writing = h.writing - 1 }) none_left busy
      v'

pub Inv-session :
    (s : SmppSession) (h : Handler)
    → Inv h
    → (is_bound s ≡ true → s.system_id ≡ text "test")
    → Inv (record h { session = s })
Inv-session s h v named = record {
  one_read = v.one_read;
  one_write = v.one_write;
  writes_front = v.writes_front;
  rests = v.rests;
  bound_as = named;
}

closing-Inv : (h : Handler) → Inv h → Inv (record h { close_after_write = true })
closing-Inv h v = record {
  one_read = v.one_read;
  one_write = v.one_write;
  writes_front = v.writes_front;
  rests = v.rests;
  bound_as = v.bound_as;
}

pub handle_unbind-Inv : (seq : ℕ) (h : Handler) → Inv h → Inv (handle_unbind seq h)
unfolding handle_unbind set_state is_bound
handle_unbind-Inv seq h v = elim (Bool-cases (is_bound h.session)) [
  | inl b ↦ rw b (
      Inv-session _ _
        (send_pdu-Inv (build_unbind_resp 0 seq) (record h { close_after_write = true })
          (closing-Inv h v))
        (λ bad. cc))
  | inr b ↦ rw b (send_pdu-Inv _ h v)
]

pub handle_enquire_link-Inv : (seq : ℕ) (h : Handler) → Inv h → Inv (handle_enquire_link seq h)
unfolding handle_enquire_link
handle_enquire_link-Inv seq h v = elim (Bool-cases (is_bound h.session)) [
  | inl b ↦ rw b (send_pdu-Inv _ h v)
  | inr b ↦ rw b (send_pdu-Inv _ h v)
]
