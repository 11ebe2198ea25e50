-- ===== src/Machine/Tests.antt =====
-- Concrete machines, on which the theorems about the state machine are applied.
use opensmsc.Machine.Diagram.{idle_forever}
use opensmsc.Machine.State.{
  Machine, SmppEvent, cmd_bind_transceiver, cmd_bind_transceiver_resp, connected, create_machine,
}
use opensmsc.Base.{List, [], refl, true, ◌∷◌, ◌≡◌}
use opensmsc.Machine.Trace.{IsTold, nothing_yet}
use opensmsc.Machine.Events.{Request, binds, receives, run, unbinds}

abbrev event : SmppEvent
event = record {
  command_id = cmd_bind_transceiver_resp;
  status_code = 0;
  error_msg = [];
  sequence_num = 0;
}

abbrev machine : Machine
machine = create_machine true true true true

abbrev online : Machine
online = record machine { current_state = connected }

abbrev requests : List Request
requests = binds cmd_bind_transceiver ∷ receives event ∷ unbinds ∷ []

idle_forever_example : run machine requests ≡ machine
unfolding create_machine
idle_forever_example = idle_forever machine requests refl

IsTold-online : IsTold connected online
unfolding IsTold create_machine
IsTold-online = (refl, nothing_yet)
