-- ===== src/Lib.antt =====
-- opensmsc: models and proofs of the SMPP servers.
--
-- The program is a set of processes. SMPPServer accepts TCP connections, checks the client's address,
-- registers the connection (ConnectionRegistry, SmppServerService) and launches a SmppClientHandler
-- for it, which claims the socket over D-Bus and runs one SMPP session (SmppSession). The session
-- asks the Authenticator whether a bind is allowed, tells the server its state, and hands it the
-- messages of submit_sm; the server routes a message to a handler whose client can receive, which
-- sends it on as deliver_sm.
--
-- The files:
--   Base      numbers, texts, lists, bit operations and dictionaries that the others share.
--   Pdu       SmppClientHandler/include/smpp_pdu.hpp: the functions under the names that they have
--             there (read_u32, write_u32, decode_header, read_cstr, parse_submit_sm, make_response,
--             make_deliver_sm, bind_resp_id) on lists of bytes.
--   Session   SmppClientHandler/src/smpp_session.cpp and include/smpp_session.hpp: `Session` has the
--             members of SmppSession, each method is a function from sessions to sessions, and what
--             the method does outside the object is pushed on a log. `World` is what a method sees
--             of the world: the authenticator's answers and the two clocks. `Input` is what the event
--             loop or D-Bus runs next, `step` runs it. Line adds the socket: what it has taken, and
--             what is left of each asio::async_write; Threads splits DeliverSm, which the D-Bus
--             thread runs, at the place where it drops the mutex.
--   Registry  SMPPServer/src/connection_registry.cpp: ConnectionRegistry, its two maps as
--             dictionaries. Every method holds the mutex, so it is one step.
--   Service   SMPPServer/src/smpp_server_service.cpp: SmppServerService, over Registry. The D-Bus
--             call of a handler's DeliverSm is a parameter, a function that may not answer; Network
--             fills it.
--   Validator SMPPServer/src/ip_validator.cpp: IpValidator, on the lines of a whitelist that is open.
--             inet_pton is a parameter; where a bound is needed it is assumed to answer 32-bit
--             addresses. Lines.stoi is std::stoi, whose exceptions are `none`.
--   Framer    SMPPServer/src/smpp_pdu_framer.cpp: SmppPduFramer.
--   Machine   SmppClientHandler/src/smpp_state_machine.cpp: SmppStateMachine, with the calls of its
--             callbacks as a list.
--   MachineV2 SmppClientHandler/src/smpp_state_machine_v2.cpp, smpp_states.cpp,
--             include/smpp_states.hpp and include/smpp_state_base.hpp: the same machine with a class
--             for each state, what its methods throw as results, and the state objects that its
--             owners delete. Where the program would use a deleted object, whose behaviour C++ does
--             not define, the model goes on as if the object were still there.
--   Handler   SMPPServer/src/smpp_client_handler.cpp, smpp_handler.cpp and smpp_session.cpp: the client
--             handler in the server's own process, which the build leaves out, over Framer. `Handler`
--             has the members of SmppClientHandler and counts the reads and writes that asio has not
--             completed; `⟶` is what may happen next. `parse` stands for the constructors of the
--             request classes of smppcxx, which may fail.
--   Auth      Authenticator/src/credentials_store.cpp and auth_service.cpp: CredentialsStore and the
--             calls of IAuth. What toml++ gives for the file is a `Document`, or `none` where it
--             throws. Sound, Presented and Sessions put the store, which may be reloaded meanwhile,
--             behind the sessions of Session; Signal is sighup_handler of main.cpp, over the lock of the
--             store.
--   Accept    SMPPServer/src/tcp_server.cpp, session_launcher.cpp and include/session_id.hpp, and the
--             arguments of SmppClientHandler/src/main.cpp with its calls up to GetSocket, over Service and
--             Validator. Whether the bus gives the handler its name is a parameter. The shell and
--             systemd-run are parameters: a command of plain words is split at its blanks, and what
--             stands behind the options is run.
--   Network   Service and the sessions of its handlers together: `route` is RouteMessage with its call
--             of the handler that it picks, `serve` what an effect of a session does to the server, where the
--             call gets there: a call that fails changes nothing, since the session catches it. A
--             handler's calls are carried out when its own step is done.
--   Client    SmppClientHandler/src/smpp_client_handler.cpp: the wrapper of the machine of MachineV2.
--   Settings  Common/src/config.cpp: Config::load, on what toml++ gives for the file and on the variable
--             SMPP_PORT.
--   Startup   SMPPServer/src/main.cpp, Authenticator/src/main.cpp and SmppClientHandler/src/main.cpp, from
--             the environment and the arguments (Options) over the calls, exceptions and threads of
--             each main (Process, Mains) to what a signal does to them (Stop). `Host` is what
--             sdbus-c++, asio and the system answer to each call. Logging is
--             SMPPServer/include/logger.hpp and Common/src/logger.cpp, with what spdlog documents of
--             loggers, sinks and levels; Info is SMPPServer/include/app_info.hpp and src/app_info.cpp,
--             over the macros of config.h, and the stub smpp_service_manager.cpp.
-- Each component's State (in Pdu: Constants, Wire, Submit, Build) and the methods' files hold the
-- definitions, its Tests the concrete inputs, and its other files the proofs.
--
-- Numbers: a uint32_t is a natural number with its wrap-around written out; where a function's result
-- depends on it, its arguments are assumed to be 32-bit or bytes. A std::string or a vector of
-- uint8_t is a list of bytes.
-- Bounds: read_cstr reads at most the 65 bytes of its default max_len, which is the fuel of its loop.
-- A decimal of a uint32_t has at most the ten digits that to_decimal is given. A message identifier
-- has the eight hexadecimal digits of its format, a session identifier twelve and sixteen. The loop of
-- Handler's on_read runs on fuel 1: after a round its framer is reset, with which the
-- loop ends. All other loops recur on a list, or on the number of threads in Startup.
-- The token bucket of throttle_check counts in a double; the model counts whole billionths of a
-- token and nanoseconds, so that rounding is not modelled.
--
-- Not modelled: the log lines of the components, the pattern, rotation and flushing of the loggers; the
-- code that sdbus-c++ generates, whose calls are effects or parameters; asio, toml++, spdlog and smppcxx,
-- of which only what the code asks of them is an argument or a step. But for
-- DeliverSm (Session/Threads), the threads of the program interleave whole methods: a method that
-- takes and drops a mutex more than once is one step. An exception that leaves a step of an
-- event loop, such as std::bad_alloc, is no branch of the step: in Startup it is a way in which the loop
-- ends.
pub mod Base
pub mod Pdu
pub mod Session
pub mod Registry
pub mod Framer
pub mod Service
pub mod Machine
pub mod MachineV2
pub mod Validator
pub mod Handler
pub mod Auth
pub mod Accept
pub mod Network
pub mod Client
pub mod Settings
pub mod Startup
