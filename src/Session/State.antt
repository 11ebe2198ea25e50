-- ===== src/Session/State.antt =====
-- The members of `SmppSession`, its constructor, and the methods that all others call.
-- A method takes the session and returns it. What it does outside the object (sends, timers, D-Bus
-- calls and signals) is pushed on `log`, newest first. A `double` count of tokens is a whole number
-- of billionths of a token, and a `steady_clock` time a number of nanoseconds: rounding is left out.
use opensmsc.Base.{
  ℕ, ◌*◌, List, [], ◌∷◌, Bool, false, Option, Text, text, length, take, leb, if◌then◌else◌,
}
use opensmsc.Pdu.Wire.{Header}

pub data SessionState : Type 0 where
  opened bound_tx bound_rx bound_trx unbound : SessionState

unfoldable pub state_name : SessionState → Text
state_name opened = text "OPEN"
state_name bound_tx = text "BOUND_TX"
state_name bound_rx = text "BOUND_RX"
state_name bound_trx = text "BOUND_TRX"
state_name unbound = text "UNBOUND"

pub data Effect : Type 0 where
  -- `asio::async_read` of a header, and of the body behind one
  header_awaited : Effect
  body_awaited : Header → Effect
  -- `asio::async_write` of a PDU
  sent : List ℕ → Effect
  -- the call of IAuth with system_id and password, and its answer (`none` for an exception)
  authenticated : Text → Text → Option (Bool × ℕ) → Effect
  -- the calls of IServer, whose exceptions are caught and logged
  details_updated : Text → Text → Text → Effect
  message_routed : Text → Text → Text → Text → Effect
  socket_closed : Effect
  -- the signal SessionExited
  session_exited : Text → Text → Effect
  -- `el_timer_` and `el_timeout_timer_`
  timer_armed timeout_armed timeout_cancelled : Effect

pub record Session : Type 0 where
  pub uuid : Text
  pub client_ip : Text
  pub system_id : Text
  pub state : SessionState
  pub bind_time : ℕ
  pub el_interval_sec : ℕ
  pub el_timeout_sec : ℕ
  pub el_seq : ℕ
  pub el_pending : Bool
  pub msg_seq : ℕ
  pub deliver_seq : ℕ
  pub max_submit_per_sec : ℕ
  pub tb_tokens : ℕ
  pub tb_last_refill : ℕ
  pub msg_id_prefix : Text
  pub log : List Effect

-- What a method sees of the world when it runs: IAuth.Authenticate, of uuid, system_id, password and
-- address, and the two clocks.
pub record World : Type 0 where
  pub authenticate : Text → Text → Text → Text → Option (Bool × ℕ)
  pub system_seconds : ℕ
  pub steady_ns : ℕ

-- One token.
abbrev pub token : ℕ
token = 1_000_000_000

-- The constructor.
unfoldable pub create : Text → Text → ℕ → ℕ → ℕ → World → Session
create uuid client_ip el_interval_sec el_timeout_sec max_submit_per_sec w = record {
  uuid = uuid;
  client_ip = client_ip;
  system_id = [];
  state = opened;
  bind_time = 0;
  el_interval_sec = el_interval_sec;
  el_timeout_sec = el_timeout_sec;
  el_seq = 0;
  el_pending = false;
  msg_seq = 0;
  deliver_seq = 0x2000_0000;
  max_submit_per_sec = max_submit_per_sec;
  tb_tokens = max_submit_per_sec * token;
  tb_last_refill = w.steady_ns;
  msg_id_prefix = if leb 8 (length uuid) then take 8 uuid else uuid;
  log = [];
}

abbrev pub emit : Effect → Session → Session
emit e s = record s { log = e ∷ s.log }

abbrev pub send_pdu : List ℕ → Session → Session
send_pdu pdu s = emit (sent pdu) s

abbrev pub read_header : Session → Session
read_header s = emit header_awaited s

-- The body of `do_disconnect`, by the state that it finds.
abbrev pub disconnect_from : SessionState → Text → Session → Session
disconnect_from unbound reason s = s
disconnect_from _ reason s =
    emit (session_exited s.uuid reason) (emit socket_closed (record s { state = unbound }))

unfoldable pub do_disconnect : Text → Session → Session
do_disconnect reason s = disconnect_from s.state reason s

unfoldable pub update_session_details : Session → Session
update_session_details s = emit (details_updated s.uuid s.system_id (state_name s.state)) s

-- GetSessionInfo: uuid, address, system_id, state and bind time.
unfoldable pub get_session_info : Session → Text × Text × Text × Text × ℕ
get_session_info s = (s.uuid, s.client_ip, s.system_id, state_name s.state, s.bind_time)
