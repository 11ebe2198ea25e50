-- ===== src/Accept/Launch.antt =====
-- The command by which the server starts a client handler, and the arguments that the handler reads.
use opensmsc.Service.State.{Service, get_socket}
use opensmsc.Base.{
  Bool, List, Option, Text, [], drop, false, if◌then◌else◌, none, some, text, true, ◌&&◌, ◌++◌,
  ◌==◌, ◌||◌, ◌∷◌, ℕ, ◌=t=◌,
}

-- `a.rfind(p, 0) == 0`
unfoldable pub starts_with : Text → Text → Bool
starts_with [] a = true
starts_with (c ∷ p) [] = false
starts_with (c ∷ p) (d ∷ a) = c == d && starts_with p a

abbrev pub handler_bin : Text
handler_bin = text "/usr/local/bin/smpp_client_handler"

unfoldable pub build_launch_command : Text → Text → Text
build_launch_command uuid client_ip =
    text "systemd-run"
    ++ text " --unit=smpp-client-"
    ++ uuid
    ++ text " --collect"
    ++ text " --property=User=smpp-client"
    ++ text " "
    ++ handler_bin
    ++ text " --uuid="
    ++ uuid
    ++ text " --client-ip="
    ++ client_ip

-- The local variables of `main`.
pub record Arguments : Type 0 where
  pub uuid : Text
  pub client_ip : Text
  pub server_svc : Text

abbrev pub no_arguments : Arguments
no_arguments = record { uuid = []; client_ip = []; server_svc = text "com.telecom.smpp.Server" }

-- One round of the loop over `argv`.
unfoldable pub read_argument : Text → Arguments → Arguments
read_argument a v =
    if starts_with (text "--uuid=") a
    then record v { uuid = drop 7 a }
    else if starts_with (text "--client-ip=") a
    then record v { client_ip = drop 12 a }
    else if starts_with (text "--server-svc=") a
    then record v { server_svc = drop 13 a }
    else v

unfoldable pub read_arguments : List Text → Arguments → Arguments
read_arguments [] v = v
read_arguments (a ∷ argv) v = read_arguments argv (read_argument a v)

abbrev pub is_nil : Text → Bool
is_nil [] = true
is_nil (c ∷ s) = false

-- `none` is the usage message and the exit.
unfoldable pub main_arguments : List Text → Option Arguments
main_arguments [] = none
main_arguments (program ∷ argv) =
    let v = read_arguments argv no_arguments in
    if is_nil v.uuid || is_nil v.client_ip then none else some v

-- The handler's name on the bus.
abbrev pub svc_name : Arguments → Text
svc_name v = text "com.telecom.smpp.Client." ++ v.uuid

-- `main` behind its arguments, up to GetSocket: the connection with its name on the bus, the object on it
-- and the call of the service of that name. `connects` and `creates` are whether
-- `createSystemBusConnection` and `createObject` return; where one throws, nothing is claimed. `server`
-- is the service named com.telecom.smpp.Server.
unfoldable pub claim_socket : (Text → Bool) → Bool → Arguments → Service → Option ℕ × Service
claim_socket connects creates v server =
    if connects (svc_name v) && creates && (v.server_svc =t= text "com.telecom.smpp.Server")
    then get_socket v.uuid server
    else (none, server)
