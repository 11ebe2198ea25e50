-- ===== src/Auth/Tests.antt =====
-- A file of credentials, on which the theorems about the store are applied.
use opensmsc.Auth.Signal.{Authenticator, sighup_handler, sighup_stuck, ◌⇝◌}
use opensmsc.Pdu.Submit.{read_cstr, read_cstr_loop}
use opensmsc.Session.Bind.{bound_state, finish_bind, handle_bind}
use opensmsc.Auth.Answers.{authenticate_lem, file_password, last_password, reload_all}
use opensmsc.Base.Dict.{insert, find}
use opensmsc.Session.Dispatch.{
  body_read, run, command_of, dispatch, dispatch_command, on_body, step,
}
use opensmsc.Session.State.{Session, World, create, update_session_details}
use opensmsc.Auth.Store.{
  CredentialsStore, Document, Entry, add_entries, add_pair, array, authenticate, authenticate_call,
  load, open_store, read_table, no_array, reload_call,
}
use opensmsc.Auth.Sessions.{run_known, Visit, inputs_of, some_visit_admits}
use opensmsc.Base.{
  List, Option, Text, [], inr, none, refl, some, true, ◌=t=◌, ◌∷◌, ◌≡◌, text, false,
}

abbrev entry : Text → Text → Option Entry
entry sid pass = some (record { system_id = some sid; password = some pass })

-- A login that stands twice, an incomplete table, and another login.
abbrev file : Document
file = array (
    entry (text "a") (text "1")
    ∷ some (record { system_id = some (text "c"); password = none })
    ∷ entry (text "b") (text "2")
    ∷ entry (text "a") (text "3")
    ∷ [])

abbrev opened_store : CredentialsStore
opened_store = record {
  path = text "f";
  credentials = (text "a", text "3") ∷ (text "b", text "2") ∷ [];
}

authenticate_lem_example :
    authenticate_call
      (text "u")
      (text "a")
      (text "3")
      (text "ip")
      (reload_all (none ∷ []) opened_store)
    ≡ (true, 0)
unfolding file_password last_password ◌=t=◌
authenticate_lem_example =
    authenticate_lem (text "f") file (none ∷ []) opened_store (text "u") (text "a") (text "3")
      (text "ip") (unfold open_store load read_table add_entries add_pair insert ◌=t=◌ in refl)

abbrev served_world : World
served_world = record {
  authenticate = λ uuid sid pass ip. some (authenticate_call uuid sid pass ip opened_store);
  system_seconds = 9;
  steady_ns = 0;
}

-- A store whose file was empty, and what it is after the file could not be read and then could.
abbrev empty_store : CredentialsStore
empty_store = record { path = text "f"; credentials = [] }

abbrev reloads : List (Option Document)
reloads = none ∷ some file ∷ []

-- bind_transmitter as "a" with password "3", behind these reloads.
abbrev visits : List Visit
visits =
    (
      reloads,
      (
        body_read none
            (record {
              command_length = 20;
              command_id = 2;
              command_status = 0;
              sequence_number = 1;
            })
            (97 ∷ 0 ∷ 51 ∷ 0 ∷ []),
        served_world,
      ),
    )
    ∷ []

abbrev fresh : Session
fresh = create (text "u") (text "ip") 60 10 5 served_world

reloaded : reload_all reloads empty_store ≡ opened_store
unfolding reload_all reload_call load read_table add_entries add_pair insert ◌=t=◌
reloaded = refl

run_known_example :
    (pass : Text) × (some_visit_admits
        (run fresh (inputs_of visits)).system_id
        pass
        no_array
        fresh
        visits
      ≡ true)
run_known_example =
    run_known (text "f") no_array empty_store (text "u") (text "ip") 60 10 5 served_world visits
      (unfold open_store load read_table in refl) ((λ uuid sid pass ip. rw reloaded (inr refl)), tt)
      (unfold run create step on_body dispatch command_of dispatch_command handle_bind finish_bind
          bound_state update_session_details authenticate_call authenticate find read_cstr
          read_cstr_loop ◌=t=◌ in
        refl)

-- A call that asks for the login a holds the lock.
abbrev asked : Authenticator
asked = record {
  store = opened_store;
  held_by = some (text "a", text "3");
  answers = [];
  waits_with = none;
  thrown_out = false;
}

sighup_stuck_example :
    let b = sighup_handler (some file) asked in (asked ⇝ b) × ((c : Authenticator) → ¬ (b ⇝ c))
sighup_stuck_example = sighup_stuck asked (text "a", text "3") file refl refl refl
