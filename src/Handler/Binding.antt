-- ===== src/Handler/Binding.antt =====
-- `SmppHandler::build_bind_resp` on all its branches.
use opensmsc.Handler.Session.{SmppSession, is_bound, set_state, set_system_id}
use opensmsc.Base.{
  =t=_true, Bool, List, Option, Text, arith, false, if◌then◌else◌, none, not, some, ℕ, ◌&&◌, ◌=t=◌,
  ◌≡◌, text, Bool-cases, inl, inr, refl,
}
use opensmsc.Handler.Responses.{
  BindKind, bind_kind, bind_resp, bind_response, bind_with, bound_state, respond,
  validate_credentials, bind_parsed,
}

-- The request was read, and its credentials are the ones that are allowed.
abbrev pub accepted : Option (Text × Text) → Bool
accepted none = false
accepted (some (username, password)) = username =t= text "test" && password =t= text "test"

bind_with_session :
    (kind : BindKind) (seq : ℕ) (username password : Text) (s : SmppSession)
    → bind_with kind seq username password s ≡ (
        if accepted (some (username, password))
        then (
          record {
            kind = bind_resp kind;
            command_status = 0;
            sequence_number = seq;
            system_id = text "TestServer";
          },
          record s { state = bound_state kind; system_id = text "test" },
        )
        else (respond (bind_resp kind) 14 seq, s))
unfolding bind_with validate_credentials set_state set_system_id
bind_with_session kind seq username password s = ground (arith, =t=_true username (text "test"))

bind_parsed_lem :
    (kind : BindKind) (seq : ℕ) (o : Option (Text × Text)) (s : SmppSession)
    → let (resp, s') = bind_parsed kind seq o s in
      (resp.kind ≡ bind_resp kind)
      × (resp.sequence_number ≡ seq)
      × (resp.command_status ≡ (if accepted o then 0 else 14))
      × (s' ≡ (
          if accepted o then record s { state = bound_state kind; system_id = text "test" } else s))
bind_parsed_lem kind seq none s = (refl, refl, refl, refl)
bind_parsed_lem kind seq (some (username, password)) s =
    rw (bind_with_session kind seq username password s)
      (elim (Bool-cases (accepted (some (username, password)))) [
        | inl ok ↦ rw ok (refl, refl, refl, refl)
        | inr bad ↦ rw bad (refl, refl, refl, refl)
      ])

module _ (parse : BindKind → List ℕ → Option (Text × Text)) where
  -- The answer to a bind is of its own kind, with its sequence number: status 5 if the session is bound
  -- already, 14 if the request cannot be read or its credentials are not the allowed ones, and 0
  -- otherwise. Only in the last case the session changes: it is bound as the command says, under the
  -- system_id "test".
  pub bind_response_lem :
      (command_id : ℕ) (raw_pdu : List ℕ) (seq : ℕ) (s : SmppSession)
      → let (resp, s') = bind_response parse command_id raw_pdu seq s in
        let kind = bind_kind command_id in
        let ok = accepted (parse kind raw_pdu) in
        (resp.kind ≡ bind_resp kind)
        × (resp.sequence_number ≡ seq)
        × (resp.command_status ≡ (if is_bound s then 5 else if ok then 0 else 14))
        × (s' ≡ (
            if not (is_bound s) && ok
            then record s { state = bound_state kind; system_id = text "test" }
            else s))
  unfolding bind_response
  bind_response_lem command_id raw_pdu seq s =
      let kind = bind_kind command_id in
      elim (Bool-cases (is_bound s)) [
        | inl already ↦ rw already (refl, refl, refl, refl)
        | inr free ↦ rw free (bind_parsed_lem kind seq (parse kind raw_pdu) s)
      ]
