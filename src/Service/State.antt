-- ===== src/Service/State.antt =====
-- `SmppServerService`. A D-Bus method takes the service and returns it; signals and the calls of
-- other services are pushed on `log`, newest first.
use opensmsc.Base.Ordered.{insert_ordered}
use opensmsc.Registry.State.{Registry, add, claim_fd, count, set_max_per_ip}
use opensmsc.Base.Dict.{Dict, erase, find}
use opensmsc.Base.{
  ℕ, Bool, List, Option, Text, [], false, if◌then◌else◌, map, none, some, text, true, ◌=t=◌, ◌||◌,
  ◌∷◌,
}

pub record SessionInfo : Type 0 where
  pub client_ip : Text
  pub system_id : Text
  pub state : Text

pub data ServerEffect : Type 0 where
  -- the signal SessionStarted
  session_started : Text → Text → ServerEffect
  -- IClientHandler.Disconnect and .DeliverSm, called on the handler of a uuid
  disconnect_called : Text → Text → ServerEffect
  deliver_called : Text → Text → Text → Text → ServerEffect

pub record Service : Type 0 where
  pub registry : Registry
  pub sessions : Dict SessionInfo
  pub log : List ServerEffect

unfoldable pub create_service : Registry → Service
create_service registry = record { registry = registry; sessions = []; log = [] }

-- The answer is the registry's, which the C++ method (of type `void`) keeps to itself.
unfoldable pub register_session : Text → ℕ → Text → Service → Bool × Service
register_session uuid fd client_ip s =
    let (ok, registry) = add uuid fd client_ip s.registry in
    let s = record s { registry = registry } in
    if ok
    then (
      true,
      record s {
        sessions =
            insert_ordered uuid
              (record { client_ip = client_ip; system_id = []; state = text "OPEN" }) s.sessions;
        log = session_started uuid client_ip ∷ s.log;
      },
    )
    else (false, s)

unfoldable pub unregister_session : Text → Service → Service
unregister_session uuid s = record s { sessions = erase uuid s.sessions }

-- `none` is the error NotFound.
unfoldable pub get_socket : Text → Service → Option ℕ × Service
get_socket uuid s =
    let (fd, registry) = claim_fd uuid s.registry in (fd, record s { registry = registry })

-- `it->second.system_id = …; it->second.state = …` where `uuid` is a key.
unfoldable pub update_session_details : Text → Text → Text → Service → Service
update_session_details uuid system_id state s = elim (find uuid s.sessions) [
  | none ↦ s
  | some info ↦ record s {
    sessions =
        insert_ordered uuid (record info { system_id = system_id; state = state }) s.sessions;
  }
]

unfoldable pub get_connection_count : Text → Service → ℕ
get_connection_count ip s = count ip s.registry

-- uuid, address, system_id and state of every session.
unfoldable pub get_all_sessions : Service → List (Text × Text × Text × Text)
get_all_sessions s =
    map (λ (p : Text × SessionInfo). (p.0, p.1.client_ip, p.1.system_id, p.1.state)) s.sessions

-- The address is ignored, as in the source.
unfoldable pub set_max_connections_per_ip : Text → ℕ → Service → Service
set_max_connections_per_ip ip max s = record s { registry = set_max_per_ip max s.registry }

-- The uuids of an address, in the order of the map.
unfoldable pub targets_of : Text → Dict SessionInfo → List Text
targets_of ip [] = []
targets_of ip ((uuid, info) ∷ m) =
    let rest = targets_of ip m in if info.client_ip =t= ip then uuid ∷ rest else rest

-- A call that throws is logged, and the loop goes on.
unfoldable pub disconnect_each : Text → List Text → Service → Service
disconnect_each reason [] s = s
disconnect_each reason (uuid ∷ targets) s =
    disconnect_each reason targets (record s { log = disconnect_called uuid reason ∷ s.log })

unfoldable pub disconnect_all : Text → Text → Service → Service
disconnect_all ip reason s = disconnect_each reason (targets_of ip s.sessions) s

abbrev pub can_receive : SessionInfo → Bool
can_receive info = info.state =t= text "BOUND_RX" || info.state =t= text "BOUND_TRX"

-- The loop of RouteMessage: the first session that can receive.
unfoldable pub first_receiver : Dict SessionInfo → Option Text
first_receiver [] = none
first_receiver ((uuid, info) ∷ m) =
    let rest = first_receiver m in if can_receive info then some uuid else rest

-- `target_uuid`, which stays empty where the loop finds none.
abbrev pub target_of : Option Text → Text
target_of none = []
target_of (some uuid) = uuid

-- RouteMessage behind its search. `deliver` is IClientHandler.DeliverSm of the handler of a uuid,
-- and answers `none` by an exception.
unfoldable pub deliver_to :
    (Text → Text → Text → Text → Option ℕ) → Text → Text → Text → Text → Service → Text × Service
deliver_to deliver [] src_addr dst_addr short_message s = ([], s)
deliver_to deliver (c ∷ uuid) src_addr dst_addr short_message s =
    let s = record s { log = deliver_called (c ∷ uuid) src_addr dst_addr short_message ∷ s.log } in
    elim (deliver (c ∷ uuid) src_addr dst_addr short_message) [
      | none ↦ ([], s)
      | some seq ↦ (c ∷ uuid, s)
    ]

unfoldable pub route_message :
    (Text → Text → Text → Text → Option ℕ) → Text → Text → Text → Text → Service → Text × Service
route_message deliver src_addr dst_addr short_message message_id s =
    deliver_to deliver (target_of (first_receiver s.sessions)) src_addr dst_addr short_message s
