-- ===== src/Startup/Process.antt =====
-- A program's `main`: its threads, its exceptions and how it ends. A `std::thread` that is joinable when
-- it is destroyed ends the process, and so does an exception that leaves a thread's function.
use opensmsc.Base.{Bool, List, Option, Text, [], if◌then◌else◌, none, some, ℕ, ◌+◌, ◌-◌, ◌==◌, ◌∷◌}

-- What a `main` does outside its own variables.
pub data Act : Type 0 where
  -- the connection with its name on the bus, and an object on it
  bus_connected : Text → Act
  object_created : Text → Act
  -- the methods of an interface, which can be called from the registration on
  service_constructed registration_finished : Act
  -- a socket has been asked for by the uuid
  socket_claimed : Text → Act
  thread_started thread_joined : Act
  signals_awaited handler_installed : Act
  listening : ℕ → Act

-- The joinable threads among the variables of `main`, and what was done, newest first.
pub record Process : Type 0 where
  pub threads : ℕ
  pub acts : List Act

abbrev pub new_process : Process
new_process = record { threads = 0; acts = [] }

-- `aborted` is an exception that has left the function of another thread.
pub data Result (A : Type 0) : Type 0 where
  returned : A → Process → Result A
  thrown : Process → Result A
  aborted : Result A

abbrev pub M : Type 0 → Type 0
M A = Process → Result A

abbrev pub pure : {A : Type 0} → A → M A
pure a p = returned a p

infixl 5 ◌>>=◌ ◌>>◌
abbrev pub ◌>>=◌ : {A B : Type 0} → M A → (A → M B) → M B
◌>>=◌ m f p = elim (m p) [ returned a q ↦ f a q | thrown q ↦ thrown q | aborted ↦ aborted ]

abbrev pub ◌>>◌ : {A B : Type 0} → M A → M B → M B
m >> k = m >>= λ _. k

-- A call that returns if ok, and has then done this, or else throws.
abbrev pub call : Bool → Act → M (Unit {0})
call ok act p = if ok then returned tt (record p { acts = act ∷ p.acts }) else thrown p

-- An object from its constructor.
abbrev pub construct : {A : Type 0} → Option A → M A
construct none p = thrown p
construct (some a) p = returned a p

abbrev pub start_thread : Bool → M (Unit {0})
start_thread ok p =
    if ok
    then returned tt (record p { threads = p.threads + 1; acts = thread_started ∷ p.acts })
    else thrown p

abbrev pub join_thread : M (Unit {0})
join_thread p = returned tt (record p { threads = p.threads - 1; acts = thread_joined ∷ p.acts })

pub data Ending : Type 0 where
  exited : ℕ → Ending
  -- by `std::terminate`
  terminated : Ending

abbrev pub exit_success : ℕ
exit_success = 0

abbrev pub exit_failure : ℕ
exit_failure = 1

-- The end of the `try` block, where the variables are destroyed, and the `catch` behind it.
unfoldable pub leave_try : {A : Type 0} → Result A → Ending
leave_try (returned a p) = if p.threads == 0 then exited exit_success else terminated
leave_try (thrown p) = if p.threads == 0 then exited exit_failure else terminated
leave_try aborted = terminated
