-- ===== src/Auth/Signal.antt =====
-- Authenticator/src/main.cpp, `sighup_handler`, over the lock of the store. The authenticator has one thread:
-- a signal interrupts it anywhere, also in a call of IAuth, and the call goes on when the handler returns.
-- `std::shared_mutex` makes the exclusive lock wait until no shared lock is held.
use opensmsc.Auth.Store.{CredentialsStore, Document, authenticate, reload}
use opensmsc.Base.{Bool, List, Option, Text, false, none, refl, some, true, ℕ, ◌∷◌, ◌≡◌}

-- The calls that hold the shared lock are those between the constructor of `lock` and their return.
pub record Authenticator : Type 0 where
  pub store : CredentialsStore
  -- system_id and password of the call that holds the shared lock
  pub held_by : Option (Text × Text)
  -- the answers, newest first
  pub answers : List (Bool × ℕ)
  -- the parsed file with which the handler of the signal waits for the exclusive lock
  pub waits_with : Option Document
  -- an exception has left the handler of the signal
  pub thrown_out : Bool

-- `sighup_handler`, by what the parser gives for the file.
unfoldable pub sighup_handler : Option Document → Authenticator → Authenticator
sighup_handler none a = record a { thrown_out = true }
sighup_handler (some tbl) a = elim a.held_by [
  | none ↦ record a { store = (reload (some tbl) a.store).1 }
  | some call ↦ record a { waits_with = some tbl }
]

infix 40 ◌⇝◌
pub data ◌⇝◌ (a : Authenticator) (b : Authenticator) : Type 0 where
  call_began :
      (sid pwd : Text)
      → a.held_by ≡ none
      → a.waits_with ≡ none
      → a.thrown_out ≡ false
      → b ≡ record a { held_by = some (sid, pwd) }
      → a ⇝ b
  call_ended :
      (sid pwd : Text)
      → a.held_by ≡ some (sid, pwd)
      → a.waits_with ≡ none
      → a.thrown_out ≡ false
      → b ≡ record a { held_by = none; answers = authenticate sid pwd a.store ∷ a.answers }
      → a ⇝ b
  sighup_came :
      (tbl : Option Document)
      → a.waits_with ≡ none
      → a.thrown_out ≡ false
      → b ≡ sighup_handler tbl a
      → a ⇝ b
  lock_taken :
      (tbl : Document)
      → a.waits_with ≡ some tbl
      → a.held_by ≡ none
      → b ≡ record a { store = (reload (some tbl) a.store).1; waits_with = none }
      → a ⇝ b

-- A handler that waits while the call that it has interrupted holds the lock.
stuck :
    (a b : Authenticator) (call : Text × Text) (tbl : Document)
    → a.held_by ≡ some call
    → a.waits_with ≡ some tbl
    → ¬ (a ⇝ b)
stuck a b call tbl held waits (call_began sid pwd h w t e) = cc
stuck a b call tbl held waits (call_ended sid pwd h w t e) = cc
stuck a b call tbl held waits (sighup_came file w t e) = cc
stuck a b call tbl held waits (lock_taken file w h e) = cc

-- A SIGHUP whose file can be parsed, while a call holds the lock of the store, brings the authenticator to a
-- state in which nothing more can happen: neither the handler of the signal nor the call ever goes on.
pub sighup_stuck :
    (a : Authenticator) (call : Text × Text) (tbl : Document)
    → a.held_by ≡ some call
    → a.waits_with ≡ none
    → a.thrown_out ≡ false
    → let b = sighup_handler (some tbl) a in (a ⇝ b) × ((c : Authenticator) → ¬ (b ⇝ c))
unfolding sighup_handler
sighup_stuck a call tbl held free fine =
    let waits : (sighup_handler (some tbl) a).waits_with ≡ some tbl =
      rw (sighup_handler, held) refl in
    let holds : (sighup_handler (some tbl) a).held_by ≡ some call =
      rw (sighup_handler, held) held in
    (sighup_came (some tbl) free fine refl, λ c. stuck _ c call tbl holds waits)
