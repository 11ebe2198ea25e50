-- ===== src/MachineV2/Tests.antt =====
-- Concrete machines, on which the theorems about the second state machine are applied.
use opensmsc.MachineV2.Edges.{handle-⟶}
use opensmsc.MachineV2.Reactions.{◌-[◌]→◌}
use opensmsc.MachineV2.State.{
  Machine, Object, class_of, connected_state, destroy, init_states, instance_of,
}
use opensmsc.MachineV2.Owners.{StandsTwice, destroy_deletes_twice}
use opensmsc.MachineV2.Handlers.{bind, enquire_link, handle, run}
use opensmsc.Base.{[], true, ◌∷◌}

abbrev machine : Machine
machine = init_states true true true true

abbrev online : Machine
online = record machine { current = instance_of connected_state }

handle-⟶_example : class_of online.current -[ bind 9 ]→ class_of (handle (bind 9) online).current
handle-⟶_example = handle-⟶ (bind 9) online

destroy_deletes_twice_example :
    (o : Object) × StandsTwice o
      (destroy (run (init_states true true true true) (bind 9 ∷ enquire_link ∷ [])))
destroy_deletes_twice_example =
    destroy_deletes_twice true true true true (bind 9) (enquire_link ∷ [])
