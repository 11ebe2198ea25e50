-- ===== src/Accept/Connection.antt =====
-- `TcpServer::handle_connection` and `launch_client_handler`. What they do outside the server's own objects
-- is pushed on `log`, newest first.
use opensmsc.Validator.State.{Validator, is_allowed}
use opensmsc.Service.State.{Service, register_session}
use opensmsc.Accept.SessionId.{generate_session_id}
use opensmsc.Accept.Launch.{build_launch_command}
use opensmsc.Base.{Bool, List, Option, Text, if◌then◌else◌, none, some, ℕ, ◌==◌, ◌∷◌}

pub data AcceptEffect : Type 0 where
  -- the descriptor is no longer the socket's
  socket_released : ℕ → AcceptEffect
  command_run : Text → AcceptEffect

pub record Server : Type 0 where
  pub validator : Validator
  pub service : Service
  pub log : List AcceptEffect

-- An accepted socket: its remote address as a text, or `none` for an error, and its descriptor; and what
-- the clock, the random numbers and `std::system` give while it is handled.
pub record Connection : Type 0 where
  pub remote : Option Text
  pub raw_fd : ℕ
  pub ts : ℕ
  pub rnd : ℕ
  pub rc : ℕ

unfoldable pub launch_client_handler : Text → Text → ℕ → Server → Bool × Server
launch_client_handler uuid client_ip rc s =
    (rc == 0, record s { log = command_run (build_launch_command uuid client_ip) ∷ s.log })

-- `handle_connection` behind the test of the address. A failed launch is logged only.
unfoldable pub admit : Text → Connection → Server → Server
admit client_ip c s =
    let uuid = generate_session_id c.ts c.rnd in
    let (ok, service) = register_session uuid c.raw_fd client_ip s.service in
    let s = record s { service = service; log = socket_released c.raw_fd ∷ s.log } in
    (launch_client_handler uuid client_ip c.rc s).1

module _ (inet_pton : Text → Option ℕ) where
  abbrev pub handle_remote : Option Text → Connection → Server → Server
  handle_remote none c s = s
  handle_remote (some client_ip) c s =
      if is_allowed inet_pton client_ip s.validator then admit client_ip c s else s

  unfoldable pub handle_connection : Connection → Server → Server
  handle_connection c s = handle_remote c.remote c s
