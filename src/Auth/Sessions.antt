-- ===== src/Auth/Sessions.antt =====
-- The sessions of SmppClientHandler/src/smpp_session.cpp, whose calls of IAuth a store answers, while its
-- file is reloaded.
use mathlib.Core.Bool.{false≢true}
use opensmsc.Auth.Presented.{admitted-presented, presented-append, step-unlogged, unlogged}
use opensmsc.Base.Dict.{find}
use opensmsc.Base.{Bool-cases, ◌||◌, false, ◌=t=◌, or_true, ◌&&◌}
use opensmsc.Auth.Sound.{Honest, presented, sound-presented, step-sound}
use opensmsc.Session.Dispatch.{Input, run, step}
use opensmsc.Session.State.{World, create, Effect, Session}
use opensmsc.Auth.Store.{
  CredentialsStore, Document, authenticate, authenticate_call, check_password, open_store, load,
  read_table,
}
use opensmsc.Auth.Answers.{
  file_password, last_read, reload_all, find-read_table, reload_all_credentials,
}
use opensmsc.Base.{
  Bool, List, Option, Text, [], ap, inl, inr, none, refl, some, sym, true, ℕ, ◌∙◌, ◌∷◌, ◌≡◌, ◌⊎◌,
}
use opensmsc.Session.Invariant.{is_bound, run-create-Inv}

-- The reloads of the store before an input of the session, and the input in its world.
abbrev pub Visit : Type 0
Visit = List (Option Document) × (Input × World)

abbrev pub inputs_of : List Visit → List (Input × World)
inputs_of [] = []
inputs_of ((tbls, iw) ∷ visits) = iw ∷ inputs_of visits

-- The call of IAuth in a world reaches the service, or fails.
abbrev pub Served : CredentialsStore → World → Type 0
Served store w =
    (uuid sid pass ip : Text)
    → (w.authenticate uuid sid pass ip ≡ none)
      ⊎ (w.authenticate uuid sid pass ip ≡ some (authenticate_call uuid sid pass ip store))

-- Each world is served by the store as the reloads before it have left it.
abbrev pub AllServed : CredentialsStore → List Visit → Type 0
AllServed store [] = Unit {0}
AllServed store ((tbls, (i, w)) ∷ visits) =
    Served (reload_all tbls store) w × AllServed (reload_all tbls store) visits

abbrev pub is_password : Text → Option Text → Bool
is_password pass none = false
is_password pass (some expected) = expected =t= pass

-- At some input the session lets a login in, and its password is the one that the file which the store
-- had parsed last at that input has for its system_id.
unfoldable pub some_visit_admits : Text → Text → Document → Session → List Visit → Bool
some_visit_admits sid pass d s [] = false
some_visit_admits sid pass d s ((tbls, (i, w)) ∷ visits) =
    let d' = last_read tbls d in
    let later = some_visit_admits sid pass d' (step i w s) visits in
    (presented sid pass (step i w (unlogged s)).log && is_password pass (file_password sid d'))
    || later

check_password-is_password :
    (pass : Text) (o : Option Text) → (check_password pass o).0 ≡ is_password pass o
check_password-is_password pass none = refl
check_password-is_password pass (some expected) = elim (Bool-cases (expected =t= pass)) [
  | inl e ↦ rw e refl
  | inr e ↦ rw e refl
]

Served-is_password :
    (store : CredentialsStore) (d : Document) (w : World)
    → store.credentials ≡ read_table d
    → Served store w
    → Honest (λ sid pass. is_password pass (file_password sid d)) w
unfolding authenticate_call authenticate
Served-is_password store d w parsed served uuid sid pass ip code e =
    elim (served uuid sid pass ip) [
      | inl failed ↦ cc
      | inr answered ↦
          let same : some (authenticate sid pass store) ≡ some (true, code) = sym answered ∙ e in
          let let_in : (authenticate sid pass store).0 ≡ true =
            ap (λ o. elim o [ none ↦ true | some v ↦ v.0 ]) same in
          ap (is_password pass) (sym (find-read_table sid d))
          ∙ ap (λ m. is_password pass (find sid m)) (sym parsed)
          ∙ sym (check_password-is_password pass (find sid store.credentials))
          ∙ let_in
    ]

-- A login that is in the log was there before, or was let in by a visit.
run-admits :
    (sid pass : Text) (store : CredentialsStore) (d : Document) (s : Session) (visits : List Visit)
    → store.credentials ≡ read_table d
    → AllServed store visits
    → presented sid pass (run s (inputs_of visits)).log ≡ true
    → (presented sid pass s.log ≡ true) ⊎ (some_visit_admits sid pass d s visits ≡ true)
unfolding run some_visit_admits
run-admits sid pass store d s [] parsed h gave = inl gave
run-admits sid pass store d s ((tbls, (i, w)) ∷ visits) parsed (now, later) gave =
    let d' = last_read tbls d in
    let new : List Effect = (step i w (unlogged s)).log in
    let parsed' : (reload_all tbls store).credentials ≡ read_table d' =
      reload_all_credentials tbls d store parsed in
    elim (run-admits sid pass (reload_all tbls store) d' (step i w s) visits parsed' later gave) [
      | inr found ↦
          inr
            (rw found (or_true (presented sid pass new && is_password pass (file_password sid d'))))
      | inl logged ↦ elim (Bool-cases (presented sid pass new)) [
        | inl fresh ↦
            let allowed : Text → Text → Bool =
              λ sid pass. is_password pass (file_password sid d') in
            let honest = Served-is_password (reload_all tbls store) d' w parsed' now in
            let right : is_password pass (file_password sid d') ≡ true =
              sound-presented allowed sid pass new (step-sound allowed i w (unlogged s) honest refl)
                fresh in
            inr (rw (fresh, right) refl)
        | inr old ↦
            let both : (presented sid pass new || presented sid pass s.log) ≡ true =
              sym (presented-append sid pass new s.log)
              ∙ ap (presented sid pass) (sym (step-unlogged i w s))
              ∙ logged in
            inl (rw old at both)
      ]
    ]

open_store_parsed :
    (path : Text) (d : Document) (store : CredentialsStore)
    → open_store path (some d) ≡ some store
    → store.credentials ≡ read_table d
unfolding open_store load
open_store_parsed path d store h = sym (ap (λ o. elim o [ none ↦ [] | some c ↦ c.credentials ]) h)

-- A session whose calls of IAuth reach a store, or fail, while the store's file may be reloaded between
-- any two inputs, with or without success: from its constructor on, after any inputs, it is bound only if
-- at one of the inputs it has presented its system_id and a password and been let in, and this is the
-- password that the last complete table of the system_id gives in the file that the store had parsed last
-- at that input.
pub run_known :
    (path : Text) (d : Document) (store : CredentialsStore) (uuid client_ip : Text)
    (interval timeout rate : ℕ) (w : World) (visits : List Visit)
    → open_store path (some d) ≡ some store
    → AllServed store visits
    → is_bound (run (create uuid client_ip interval timeout rate w) (inputs_of visits)).state ≡ true
    → let s = create uuid client_ip interval timeout rate w in
      (pass : Text) × (some_visit_admits (run s (inputs_of visits)).system_id pass d s visits
        ≡ true)
unfolding create
run_known path d store uuid client_ip interval timeout rate w visits h served bound =
    let s = create uuid client_ip interval timeout rate w in
    let v = run-create-Inv uuid client_ip interval timeout rate w (inputs_of visits) in
    let sid : Text = (run s (inputs_of visits)).system_id in
    let (pass, gave) = admitted-presented sid (run s (inputs_of visits)).log (v.let_in bound) in
    elim (run-admits sid pass store d s visits (open_store_parsed path d store h) served gave) [
      | inl before ↦ absurd (false≢true before)
      | inr found ↦ (pass, found)
    ]
