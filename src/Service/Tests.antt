-- ===== src/Service/Tests.antt =====
-- A concrete server, on which the theorems about it are applied.
use opensmsc.Registry.State.{create}
use opensmsc.Service.State.{
  Service, SessionInfo, can_receive, deliver_to, first_receiver, route_message,
}
use opensmsc.Base.Dict.{find}
use opensmsc.Base.{Option, Text, [], none, refl, some, true, ℕ, ◌=t=◌, ◌∷◌, ◌≡◌, ◌≢◌, ◌⊎◌, text}
use opensmsc.Service.Routing.{AllEmpty, Message, route_all, route_all_blocked, route_message_target}
use opensmsc.Base.Ordered.{IsSorted, text_lt}

abbrev ip : Text
ip = text "10.0.0.1"

abbrev info_in : Text → SessionInfo
info_in state = record { client_ip = ip; system_id = text "esme"; state = state }

abbrev service : Service
service = record {
  registry = create 2;
  sessions = (text "a", info_in (text "BOUND_TX")) ∷ (text "b", info_in (text "BOUND_RX")) ∷ [];
  log = [];
}

abbrev lonely : Service
lonely = record { registry = create 2; sessions = []; log = [] }

-- A handler that always answers, and one that is gone.
abbrev answers : Text → Text → Text → Text → Option ℕ
answers uuid src dst msg = some 1

abbrev gone : Text → Text → Text → Text → Option ℕ
gone uuid src dst msg = none

IsSorted-service : IsSorted service.sessions
unfolding text_lt
IsSorted-service = (refl, tt)

route_message_target_example :
    ((info : SessionInfo) × (find (text "b") service.sessions ≡ some info)
      × (can_receive info ≡ true))
    × (answers (text "b") (text "1") (text "2") (text "hi") ≢ none)
    × ((k : Text) (other_info : SessionInfo)
        → find k service.sessions ≡ some other_info
        → can_receive other_info ≡ true
        → (text "b" ≡ k) ⊎ (text_lt (text "b") k ≡ true))
unfolding route_message deliver_to first_receiver ◌=t=◌
route_message_target_example =
    route_message_target answers (text "1") (text "2") (text "hi") (text "m") service (text "b")
      IsSorted-service (λ e. cc) refl

abbrev message : Message
message = record {
  src_addr = text "1";
  dst_addr = text "2";
  short_message = text "hi";
  message_id = text "m";
}

route_all_blocked_example : AllEmpty (route_all gone (message ∷ message ∷ []) service).0
unfolding first_receiver ◌=t=◌
route_all_blocked_example =
    route_all_blocked gone (message ∷ message ∷ []) service (text "b") refl (λ src dst msg. refl)
