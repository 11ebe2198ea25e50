-- ===== src/Startup/Others.antt =====
-- How the client handler and the authenticator end, and the authenticator's options.
use opensmsc.Auth.Store.{load, open_store}
use opensmsc.Accept.Launch.{main_arguments}
use opensmsc.Startup.Options.{creds_path, read_credentials}
use opensmsc.Base.Dict.{or_default}
use opensmsc.Startup.Outcome.{all_return, is_some}
use opensmsc.Startup.Reference.{last_value}
use opensmsc.Startup.Mains.{
  Host, handler_main, handler_try, Served, all_returned, caller_threw, run_all, worker_threw,
  auth_main, auth_try,
}
use opensmsc.Startup.Process.{
  exit_failure, exit_success, exited, leave_try, terminated, Act, bus_connected, call, join_thread,
  new_process, object_created, registration_finished, service_constructed, signals_awaited,
  socket_claimed, start_thread, ◌>>◌, Ending, handler_installed, pure,
}
use opensmsc.Base.{
  Bool, List, Text, [], if◌then◌else◌, some, ◌&&◌, ◌++◌, ◌≡◌, Option, text, ◌∷◌, ◌∙◌, arith, false,
  refl, true, Option-cases, inl, inr, none,
}

read_credentials_last :
    (argv : List Text) (path : Text)
    → read_credentials argv path ≡ or_default (last_value (text "--credentials=") argv) path
unfolding read_credentials last_value
read_credentials_last [] path = refl
read_credentials_last (a ∷ argv) path = read_credentials_last argv _ ∙ ground arith

-- The authenticator's file is that of the last --credentials, else of SMPP_CREDENTIALS, else the default.
creds_path_lem :
    (env : Option Text) (program : Text) (argv : List Text)
    → creds_path env (program ∷ argv)
      ≡ or_default
          (last_value (text "--credentials=") argv)
          (or_default env (text "/etc/smpp-server/credentials.toml"))
unfolding creds_path
creds_path_lem env program argv = read_credentials_last argv _

-- The handler has its bus name and its socket, the signals, its session and its thread.
abbrev pub is_started : Host → Text → Bool
is_started w uuid =
    w.connects (text "com.telecom.smpp.Client." ++ uuid)
    && w.creates
    && w.claims uuid
    && w.awaits
    && w.serves
    && w.finishes
    && w.starts 0

-- The handler behind its calls, with its thread started.
handler_served :
    (served : Served) (acts : List Act)
    → leave_try ((run_all served >> join_thread) (record { threads = 1; acts = acts }))
      ≡ (if all_return served then exited exit_success else terminated)
unfolding leave_try
handler_served all_returned acts = refl
handler_served caller_threw acts = refl
handler_served worker_threw acts = refl

handler_calls :
    (connects creates has_socket awaits serves finishes starts : Bool) (served : Served)
    (uuid : Text)
    → leave_try (
        (call connects (bus_connected (text "com.telecom.smpp.Client." ++ uuid))
            >> (call creates (object_created (text "/com/telecom/smpp/client"))
                >> (call has_socket (socket_claimed uuid)
                    >> (call awaits signals_awaited
                        >> (call serves service_constructed
                            >> (call finishes registration_finished
                                >> (start_thread starts >> (run_all served >> join_thread))))))))
          new_process)
      ≡ (if connects && creates && has_socket && awaits && serves && finishes && starts
          then if all_return served then exited exit_success else terminated
          else exited exit_failure)
unfolding leave_try
handler_calls true true true true true true true served uuid = handler_served served _
handler_calls true true true true true true false served uuid = refl
handler_calls true true true true true false starts served uuid = refl
handler_calls true true true true false finishes starts served uuid = refl
handler_calls true true true false serves finishes starts served uuid = refl
handler_calls true true false awaits serves finishes starts served uuid = refl
handler_calls true false has_socket awaits serves finishes starts served uuid = refl
handler_calls false creates has_socket awaits serves finishes starts served uuid = refl

-- A handler without its two arguments ends with EXIT_FAILURE, and so does one for which something fails
-- before its D-Bus thread is started, such as its name on the bus or the claim of its socket; an exception
-- of its event loop terminates it; else it ends with EXIT_SUCCESS.
pub handler_main_lem :
    (w : Host) (argv : List Text)
    → handler_main w argv ≡ (elim (main_arguments argv) [
      | none ↦ exited exit_failure
      | some v ↦
          if is_started w v.uuid
          then if all_return w.served then exited exit_success else terminated
          else exited exit_failure
    ])
unfolding handler_main handler_try
handler_main_lem w argv = elim (Option-cases (main_arguments argv)) [
  | inl e ↦ rw (handler_main, e) refl
  | inr (v, e) ↦
      rw (handler_main, e)
        (handler_calls (w.connects (text "com.telecom.smpp.Client." ++ v.uuid)) w.creates
          (w.claims v.uuid) w.awaits w.serves w.finishes (w.starts 0) w.served v.uuid)
]

-- Without threads an exception of the event loop reaches the `catch`. A worker is not there to throw.
abbrev loop_ending : Served → Ending
loop_ending all_returned = exited exit_success
loop_ending caller_threw = exited exit_failure
loop_ending worker_threw = terminated

auth_calls :
    {A : Type 0} (a : A) (connects creates serves finishes : Bool) (served : Served)
    → leave_try (
        (call true handler_installed
            >> (call connects (bus_connected (text "com.telecom.smpp.Auth"))
                >> (call creates (object_created (text "/com/telecom/smpp/auth"))
                    >> (call serves service_constructed
                        >> (call finishes registration_finished >> (run_all served >> pure a))))))
          new_process)
      ≡ (if connects && creates && serves && finishes
          then loop_ending served
          else exited exit_failure)
unfolding leave_try
auth_calls a true true true true all_returned = refl
auth_calls a true true true true caller_threw = refl
auth_calls a true true true true worker_threw = refl
auth_calls a true true true false served = refl
auth_calls a true true false finishes served = refl
auth_calls a true false serves finishes served = refl
auth_calls a false creates serves finishes served = refl

-- The authenticator ends with EXIT_FAILURE if its file cannot be parsed, if it does not get its name and
-- its methods on the bus, or if its event loop throws, and with EXIT_SUCCESS if the loop returns.
auth_main_lem :
    (w : Host) (env : Option Text) (argv : List Text)
    → auth_main w env argv ≡ (
        if is_some (w.toml_of (creds_path env argv))
          && w.connects (text "com.telecom.smpp.Auth")
          && w.creates
          && w.serves
          && w.finishes
        then loop_ending w.served
        else exited exit_failure)
unfolding auth_main auth_try open_store load leave_try
auth_main_lem w env argv = elim (Option-cases (w.toml_of (creds_path env argv))) [
  | inl e ↦ rw (auth_main, e, leave_try) refl
  | inr (tbl, e) ↦
      rw (auth_main, e)
        (auth_calls _ (w.connects (text "com.telecom.smpp.Auth")) w.creates w.serves w.finishes
          w.served)
]
