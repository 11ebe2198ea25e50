-- ===== src/Network/State.antt =====
-- The service and the handlers' sessions by their uuids. A handler's calls of the server are carried out
-- when its own step is done, in the order of the calls; IClientHandler.DeliverSm is `deliver_sm_call` of
-- the session that it is called on.
use opensmsc.Session.Submit.{deliver_sm_call}
use opensmsc.Base.{Bool, if◌then◌else◌, List, Option, Text, [], none, some, ℕ, ◌++◌, ◌∷◌}
use opensmsc.Service.State.{
  Service, first_receiver, route_message, target_of, update_session_details,
}
use opensmsc.Base.Dict.{Dict, find, insert}
use opensmsc.Session.State.{Session, World, Effect, details_updated, message_routed}
use opensmsc.Session.Dispatch.{Input, step}

pub record Network : Type 0 where
  pub service : Service
  pub handlers : Dict Session

-- DeliverSm on the handler of a uuid, which fails where no process has its name.
abbrev pub answer_of : Option Session → Text → Text → Text → Option ℕ
answer_of none src_addr dst_addr short_message = none
answer_of (some h) src_addr dst_addr short_message =
    (deliver_sm_call src_addr dst_addr short_message h).0

abbrev pub deliver_at : Dict Session → Text → Text → Text → Text → Option ℕ
deliver_at handlers uuid src_addr dst_addr short_message =
    answer_of (find uuid handlers) src_addr dst_addr short_message

-- What the call leaves of the handlers.
abbrev pub deliver_into : Text → Option Session → Text → Text → Text → Dict Session → Dict Session
deliver_into uuid none src_addr dst_addr short_message handlers = handlers
deliver_into uuid (some h) src_addr dst_addr short_message handlers =
    insert uuid (deliver_sm_call src_addr dst_addr short_message h).1 handlers

-- RouteMessage, with its call of the handler that it picks.
unfoldable pub route : Text → Text → Text → Text → Network → Network
route src_addr dst_addr short_message message_id n =
    let (uuid, service) =
      route_message (deliver_at n.handlers) src_addr dst_addr short_message message_id n.service in
    let target = target_of (first_receiver n.service.sessions) in
    record {
      service = service;
      handlers =
          deliver_into target (find target n.handlers) src_addr dst_addr short_message n.handlers;
    }

-- What an effect of a session does to the server: nothing but for the calls of IServer, and nothing
-- either where the call does not reach the server. The session catches the error that it gets then and
-- goes on.
abbrev pub serve : Bool → Effect → Network → Network
serve reaches (details_updated uuid system_id state) n =
    if reaches
    then record n { service = update_session_details uuid system_id state n.service }
    else n
serve reaches (message_routed src_addr dst_addr short_message message_id) n =
    if reaches then route src_addr dst_addr short_message message_id n else n
serve reaches _ n = n

-- The effects of a step, newest first.
unfoldable pub serve_all : Bool → List Effect → Network → Network
serve_all reaches [] n = n
serve_all reaches (e ∷ earlier) n = serve reaches e (serve_all reaches earlier n)

-- A step of a session, by what it pushes on an empty log.
abbrev pub fresh : Session → Session
fresh s = record s { log = [] }

abbrev pub run_handler : Bool → Text → Option Session → Input → World → Network → Network
run_handler reaches uuid none i w n = n
run_handler reaches uuid (some s) i w n =
    let s' = step i w (fresh s) in
    serve_all reaches s'.log
      (record n { handlers = insert uuid (record s' { log = s'.log ++ s.log }) n.handlers })

-- The handler of a uuid takes an input. A step makes one call of IServer at most; `reaches` says whether
-- it reaches the server.
unfoldable pub handler_step : Bool → Text → Input → World → Network → Network
handler_step reaches uuid i w n = run_handler reaches uuid (find uuid n.handlers) i w n
