-- ===== src/Handler/Responses.antt =====
-- `SmppHandler`: the responses. The library that holds the classes of the PDUs is not in the
-- repository: a response object is its class with the fields that the code sets, and `parse` is the
-- constructor of BindReceiver, BindTransmitter or BindTransceiver on the bytes of a PDU, with the
-- system_id and password that it read, or `none` where it throws.
use opensmsc.Base.{
  Bool, List, Option, Text, [], if◌then◌else◌, none, some, ℕ, ◌&&◌, ◌==◌, ◌=t=◌, text,
}
use opensmsc.Handler.Session.{
  BindState, SmppSession, bound_receiver, bound_transceiver, bound_transmitter, is_bound, set_state,
  set_system_id,
}

abbrev pub cmd_bind_receiver : ℕ
cmd_bind_receiver = 0x0000_0001

abbrev pub cmd_bind_transmitter : ℕ
cmd_bind_transmitter = 0x0000_0002

abbrev pub cmd_bind_transceiver : ℕ
cmd_bind_transceiver = 0x0000_0009

abbrev pub cmd_unbind : ℕ
cmd_unbind = 0x0000_0006

abbrev pub cmd_enquire_link : ℕ
cmd_enquire_link = 0x0000_000F

-- The three binds, by the tests of `build_bind_resp`.
pub data BindKind : Type 0 where
  receiver transmitter transceiver : BindKind

unfoldable pub bind_kind : ℕ → BindKind
bind_kind command_id =
    if command_id == cmd_bind_receiver
    then receiver
    else if command_id == cmd_bind_transmitter
    then transmitter
    else transceiver

-- The state that a bind leads to.
abbrev pub bound_state : BindKind → BindState
bound_state receiver = bound_receiver
bound_state transmitter = bound_transmitter
bound_state transceiver = bound_transceiver

pub data ResponseClass : Type 0 where
  bind_resp : BindKind → ResponseClass
  unbind_resp enquire_link_resp generic_nack : ResponseClass

pub record Response : Type 0 where
  pub kind : ResponseClass
  pub command_status : ℕ
  pub sequence_number : ℕ
  pub system_id : Text

abbrev pub respond : ResponseClass → ℕ → ℕ → Response
respond kind status seq = record {
  kind = kind;
  command_status = status;
  sequence_number = seq;
  system_id = [];
}

-- The placeholder of the source.
unfoldable pub encode_pdu : Response → List ℕ
encode_pdu resp = []

unfoldable pub validate_credentials : Text → Text → Bool
validate_credentials username password = username =t= text "test" && password =t= text "test"

-- A bind whose PDU was read: the response object, and the session.
unfoldable pub bind_with : BindKind → ℕ → Text → Text → SmppSession → Response × SmppSession
bind_with kind seq username password s =
    if validate_credentials username password
    then (
      record {
        kind = bind_resp kind;
        command_status = 0;
        sequence_number = seq;
        system_id = text "TestServer";
      },
      set_state (bound_state kind) (set_system_id username s),
    )
    else (respond (bind_resp kind) 0x0000_000E seq, s)

-- The `try` of `build_bind_resp`, by what the constructor of the request gives.
abbrev pub bind_parsed : BindKind → ℕ → Option (Text × Text) → SmppSession → Response × SmppSession
bind_parsed kind seq none s = (respond (bind_resp kind) 0x0000_000E seq, s)
bind_parsed kind seq (some (username, password)) s = bind_with kind seq username password s

module _ (parse : BindKind → List ℕ → Option (Text × Text)) where
  -- The object that `build_bind_resp` hands to `encode_pdu`, and the session that it leaves.
  unfoldable pub bind_response : ℕ → List ℕ → ℕ → SmppSession → Response × SmppSession
  bind_response command_id raw_pdu seq s =
      let kind = bind_kind command_id in
      if is_bound s
      then (respond (bind_resp kind) 0x0000_0005 seq, s)
      else bind_parsed kind seq (parse kind raw_pdu) s

  unfoldable pub build_bind_resp : ℕ → List ℕ → ℕ → SmppSession → List ℕ × SmppSession
  build_bind_resp command_id raw_pdu seq s =
      let (resp, s') = bind_response command_id raw_pdu seq s in (encode_pdu resp, s')

unfoldable pub build_unbind_resp : ℕ → ℕ → List ℕ
build_unbind_resp status seq = encode_pdu (respond unbind_resp status seq)

unfoldable pub build_enquire_link_resp : ℕ → ℕ → List ℕ
build_enquire_link_resp status seq = encode_pdu (respond enquire_link_resp status seq)

unfoldable pub build_generic_nack : ℕ → ℕ → List ℕ
build_generic_nack status seq = encode_pdu (respond generic_nack status seq)
