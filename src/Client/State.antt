-- ===== src/Client/State.antt =====
-- The `SmppClientHandler` of SmppClientHandler/src/smpp_client_handler.cpp. Its logger is not modelled. The
-- handlers of requests are private, and nothing calls them; `get_state_machine()` is the field.
use opensmsc.Base.{Bool, List, Text, [], false, if◌then◌else◌, true, ℕ, ◌&&◌, ◌∷◌, text}
use opensmsc.MachineV2.Handlers.{handle_bind, handle_enquire_link, handle_unbind}
use opensmsc.MachineV2.State.{Machine, Object, destroy, init_states, is_bound}

-- `negative_fd` is the test `socket_fd_ < 0`. `errors` are the calls of the error callback, newest first.
pub record ClientHandler : Type 0 where
  pub negative_fd : Bool
  pub state_machine : Machine
  pub has_error_callback : Bool
  pub running : Bool
  pub errors : List Text

-- The constructor: the machine is new, and no callback is registered with it.
unfoldable pub create_client : Bool → ClientHandler
create_client negative_fd = record {
  negative_fd = negative_fd;
  state_machine = init_states false false false false;
  has_error_callback = false;
  running = false;
  errors = [];
}

unfoldable pub init : ClientHandler → ClientHandler
init c =
    if c.negative_fd && c.has_error_callback
    then record c { errors = text "Invalid socket file descriptor" ∷ c.errors }
    else c

-- Only logs.
unfoldable pub process_pdu : ClientHandler → ClientHandler
process_pdu c = c

unfoldable pub start : ClientHandler → ClientHandler
start c = if c.running then c else process_pdu (record c { running = true })

unfoldable pub stop : ClientHandler → ClientHandler
stop c = record c { running = false }

unfoldable pub set_error_callback : ClientHandler → ClientHandler
set_error_callback c = record c { has_error_callback = true }

unfoldable pub handle_bind_request : ℕ → ClientHandler → ClientHandler
handle_bind_request bind_command_id c = record c {
  state_machine = handle_bind bind_command_id c.state_machine;
}

unfoldable pub handle_unbind_request : ClientHandler → ClientHandler
handle_unbind_request c = record c { state_machine = handle_unbind c.state_machine }

unfoldable pub handle_enquire_link_request : ClientHandler → ClientHandler
handle_enquire_link_request c =
    if is_bound c.state_machine
    then record c { state_machine = handle_enquire_link c.state_machine }
    else c

-- The destructor, with the state objects that have been deleted then.
unfoldable pub destroy_client : ClientHandler → ClientHandler × List Object
destroy_client c = let c = if c.running then stop c else c in (c, destroy c.state_machine)
