-- ===== src/Handler/Session.antt =====
-- `SmppSession` of the server: the bind state of a connection.
use opensmsc.Base.{Bool, Text, [], false, true, u32, ℕ, ◌+◌}

pub data BindState : Type 0 where
  unbound bound_transmitter bound_receiver bound_transceiver : BindState

pub record SmppSession : Type 0 where
  pub state : BindState
  pub system_id : Text
  pub sequence_counter : ℕ

-- The constructor.
unfoldable pub new_session : SmppSession
new_session = record { state = unbound; system_id = []; sequence_counter = 0 }

unfoldable pub set_state : BindState → SmppSession → SmppSession
set_state new_state s = record s { state = new_state }

unfoldable pub set_system_id : Text → SmppSession → SmppSession
set_system_id id s = record s { system_id = id }

unfoldable pub next_sequence_number : SmppSession → ℕ × SmppSession
next_sequence_number s =
    let n = u32 (s.sequence_counter + 1) in (n, record s { sequence_counter = n })

abbrev pub bound_in : BindState → Bool
bound_in unbound = false
bound_in _ = true

unfoldable pub is_bound : SmppSession → Bool
is_bound s = bound_in s.state
