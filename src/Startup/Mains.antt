-- ===== src/Startup/Mains.antt =====
-- The three `main` functions. What sdbus-c++, asio and the system answer to each call is the host's part.
use opensmsc.Accept.Launch.{Arguments, main_arguments}
use opensmsc.Accept.Connection.{Server}
use opensmsc.Service.State.{create_service}
use opensmsc.Startup.Options.{Options, helped, main_options, parsed, uncaught, creds_path}
use opensmsc.Startup.Process.{
  Ending, M, aborted, bus_connected, call, construct, exit_success, exited, join_thread, leave_try,
  listening, new_process, object_created, pure, registration_finished, returned,
  service_constructed, signals_awaited, start_thread, terminated, thrown, ◌>>◌, ◌>>=◌, exit_failure,
  handler_installed, socket_claimed,
}
use opensmsc.Auth.Store.{Document, CredentialsStore, open_store}
use opensmsc.Base.{
  Bool, List, Option, Text, [], if◌then◌else◌, ltb, none, some, suc, zero, ℕ, ◌-◌, true, ◌++◌, text,
}
use opensmsc.Registry.State.{create}
use opensmsc.Validator.State.{Validator, load_config}

-- How the calls of `io_context::run` ended: all returned, or a completion threw in the calling thread, or
-- in a worker.
pub data Served : Type 0 where
  all_returned caller_threw worker_threw : Served

pub record Host : Type 0 where
  -- the lines of a file, if it can be opened, and what `toml::parse_file` gives for one
  pub lines_of : Text → Option (List Text)
  pub toml_of : Text → Option Document
  -- whether the calls for the connection, the object, the service and its registration return
  pub connects : Text → Bool
  pub creates : Bool
  pub serves : Bool
  pub finishes : Bool
  -- whether GetSocket returns, and whether the signals can be awaited
  pub claims : Text → Bool
  pub awaits : Bool
  -- whether a thread can be started beside so many, and whether the acceptor can have a port
  pub starts : ℕ → Bool
  pub listens : ℕ → Bool
  -- `std::thread::hardware_concurrency()`
  pub cores : ℕ
  pub served : Served

-- A number of threads, each started while the next number of them is there.
unfoldable pub start_workers : Host → ℕ → M (Unit {0})
start_workers w zero = pure tt
start_workers w (suc k) = λ p. (start_thread (w.starts p.threads) >> start_workers w k) p

unfoldable pub join_workers : ℕ → M (Unit {0})
join_workers zero = pure tt
join_workers (suc k) = join_thread >> join_workers k

-- `io_ctx.run()` in the thread of `main`, and in its workers.
abbrev pub run_all : Served → M (Unit {0})
run_all all_returned p = returned tt p
run_all caller_threw p = thrown p
run_all worker_threw p = aborted

-- `std::max(2u, n)`, less the thread of `main` itself.
abbrev pub workers_of : ℕ → ℕ
workers_of cores = (if ltb 2 cores then cores else 2) - 1

abbrev default_max_per_ip : ℕ
default_max_per_ip = 5

-- The server behind the construction of its objects: the D-Bus thread, the acceptor and the workers.
unfoldable pub serve_clients : Host → Options → M (Unit {0})
serve_clients w o = do
  start_thread (w.starts 0)
  call w.awaits signals_awaited
  call (w.listens o.port) (listening o.port)
  start_workers w (workers_of w.cores)
  run_all w.served
  join_workers (workers_of w.cores)
  join_thread

-- The server's objects as they are constructed.
abbrev pub new_server : Validator → Server
new_server validator = record {
  validator = validator;
  service = create_service (create default_max_per_ip);
  log = [];
}

module _ (inet_pton : Text → Option ℕ) where
  -- The constructor of `IpValidator`, which throws where the file cannot be opened or `load_config` throws.
  abbrev pub loaded_lines : Option (List Text) → Option Validator
  loaded_lines none = none
  loaded_lines (some lines) =
      let (ok, v) = load_config inet_pton lines in if ok then some v else none

  -- The `try` block of the server. It gives the server's objects.
  unfoldable pub server_try : Host → Options → M Server
  server_try w o = do
    validator ← construct (loaded_lines (w.lines_of o.ip_config))
    call (w.connects (text "com.telecom.smpp.Server"))
        (bus_connected (text "com.telecom.smpp.Server"))
    call w.creates (object_created (text "/com/telecom/smpp/server"))
    call w.serves service_constructed
    call w.finishes registration_finished
    serve_clients w o
    pure (new_server validator)

  unfoldable pub server_main : Host → Option Text → Option Text → List Text → Ending
  server_main w env_level env_port argv = elim (main_options env_level env_port argv) [
    | parsed o ↦ leave_try (server_try w o new_process)
    | helped ↦ exited exit_success
    | uncaught ↦ terminated
  ]

-- The `try` block of the client handler, behind its arguments. `createProxy` counts with GetSocket, and
-- `session->start()`, which comes when the thread is started, with the event loop.
unfoldable pub handler_try : Host → Arguments → M (Unit {0})
handler_try w v = do
  call (w.connects (text "com.telecom.smpp.Client." ++ v.uuid))
      (bus_connected (text "com.telecom.smpp.Client." ++ v.uuid))
  call w.creates (object_created (text "/com/telecom/smpp/client"))
  call (w.claims v.uuid) (socket_claimed v.uuid)
  call w.awaits signals_awaited
  call w.serves service_constructed
  call w.finishes registration_finished
  start_thread (w.starts 0)
  run_all w.served
  join_thread

unfoldable pub handler_main : Host → List Text → Ending
handler_main w argv = elim (main_arguments argv) [
  | none ↦ exited exit_failure
  | some v ↦ leave_try (handler_try w v new_process)
]

-- The `try` block of the authenticator, which has no thread of its own. `served` is how its event loop
-- ended.
unfoldable pub auth_try : Host → Text → M CredentialsStore
auth_try w path = do
  store ← construct (open_store path (w.toml_of path))
  call true handler_installed
  call (w.connects (text "com.telecom.smpp.Auth")) (bus_connected (text "com.telecom.smpp.Auth"))
  call w.creates (object_created (text "/com/telecom/smpp/auth"))
  call w.serves service_constructed
  call w.finishes registration_finished
  run_all w.served
  pure store

unfoldable pub auth_main : Host → Option Text → List Text → Ending
auth_main w env argv = leave_try (auth_try w (creds_path env argv) new_process)
