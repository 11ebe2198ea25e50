-- ===== src/Startup/Outcome.antt =====
-- How the server's `main` ends.
use opensmsc.Startup.Options.{Options, main_options, parsed, Parsed, helped, uncaught}
use opensmsc.Startup.Process.{
  Process, returned, thrown, exit_success, exited, join_thread, leave_try, terminated,
  thread_joined, thread_started, ◌>>◌, pure, listening, signals_awaited, Act, exit_failure,
  new_process, bus_connected, object_created, registration_finished, service_constructed, Ending, M,
  call,
}
use opensmsc.Startup.Mains.{
  Served, Host, all_returned, join_workers, start_workers, run_all, caller_threw, serve_clients,
  worker_threw, workers_of, loaded_lines, server_main, server_try, new_server,
}
use opensmsc.Base.{
  Bool, Bool-cases, Option, arith, false, inl, inr, none, refl, some, suc, true, zero, ℕ, ◌&&◌, ◌+◌,
  ◌-◌, ◌≡◌, ◌≤◌, ◌⊎◌, if◌then◌else◌, ◌∷◌, List, Text, text, Option-cases, [], ◌∙◌,
}

abbrev pub is_some : {A : Type 0} → Option A → Bool
is_some none = false
is_some (some a) = true

-- So many threads can be started beside n.
unfoldable pub all_start : Host → ℕ → ℕ → Bool
all_start w zero n = true
all_start w (suc k) n = let rest = all_start w k (n + 1) in w.starts n && rest

abbrev pub all_return : Served → Bool
all_return all_returned = true
all_return _ = false

abbrev one_more : Process → Process
one_more p = record { threads = p.threads + 1; acts = thread_started ∷ p.acts }

start_workers-cases :
    (w : Host) (k : ℕ) (p : Process)
    → ((all_start w k p.threads ≡ true)
        × (q : Process) × (start_workers w k p ≡ returned tt q)
        × (q.threads ≡ p.threads + k))
      ⊎ ((all_start w k p.threads ≡ false)
          × (q : Process) × (start_workers w k p ≡ thrown q)
          × (p.threads ≤ q.threads))
unfolding start_workers all_start
start_workers-cases w zero p = inl (refl, p, refl, omega arith)
start_workers-cases w (suc k) p = elim (Bool-cases (w.starts p.threads)) [
  | inl e ↦ elim (start_workers-cases w k (one_more p)) [
    | inl (all, q, eq, n) ↦ inl (rw e all, q, rw e eq, omega arith)
    | inr (not_all, q, eq, n) ↦ inr (rw e not_all, q, rw e eq, omega arith)
  ]
  | inr e ↦ inr (rw e refl, p, rw e refl, omega arith)
]

join_workers-threads :
    (k : ℕ) (p : Process)
    → (q : Process) × (join_workers k p ≡ returned tt q) × (q.threads ≡ p.threads - k)
unfolding join_workers
join_workers-threads zero p = (p, refl, omega arith)
join_workers-threads (suc k) p =
    let (q, eq, n) =
      join_workers-threads k (record { threads = p.threads - 1; acts = thread_joined ∷ p.acts }) in
    (q, eq, omega arith)

-- The steps behind the start of the workers, whatever is constructed behind them.
finish_serving :
    {A : Type 0} (a : A) (served : Served) (k : ℕ) (p : Process)
    → p.threads ≡ k + 1
    → leave_try (((run_all served >> (join_workers k >> join_thread)) >> pure a) p)
      ≡ (if all_return served then exited exit_success else terminated)
unfolding leave_try
finish_serving a all_returned k p e =
    let (q, eq, n) = join_workers-threads k p in rw (eq, leave_try) (ground arith)
finish_serving a caller_threw k p e = ground arith
finish_serving a worker_threw k p e = refl

unfoldable pub serves_all : Host → Options → Bool
serves_all w o =
    w.awaits && w.listens o.port && all_start w (workers_of w.cores) 1 && all_return w.served

-- A process without threads, and that of `main` once it has the D-Bus thread and the acceptor.
abbrev threadless : List Act → Process
threadless acts = record { threads = 0; acts = acts }

abbrev at_port : Options → List Act → Process
at_port o acts = record {
  threads = 1;
  acts = listening o.port ∷ signals_awaited ∷ thread_started ∷ acts;
}

serve_clients-serves_all :
    {A : Type 0} (a : A) (w : Host) (o : Options) (acts : List Act)
    → w.starts 0 ≡ true
    → leave_try ((serve_clients w o >> pure a) (threadless acts))
      ≡ (if serves_all w o then exited exit_success else terminated)
unfolding serves_all serve_clients leave_try all_start
serve_clients-serves_all a w o acts starts = elim (Bool-cases w.awaits) [
  | inl aw ↦ elim (Bool-cases (w.listens o.port)) [
    | inl li ↦ elim (start_workers-cases w (workers_of w.cores) (at_port o acts)) [
      | inl (all, q, eq, n) ↦
          rw (starts, aw, li, all, eq, leave_try)
            (finish_serving a w.served (workers_of w.cores) q (omega arith))
      | inr (not_all, q, eq, n) ↦ rw (starts, aw, li, not_all, eq, leave_try) (ground arith)
    ]
    | inr li ↦ rw (starts, aw, li, leave_try) refl
  ]
  | inr aw ↦ rw (starts, aw, leave_try) refl
]

serve_clients-starts :
    {A : Type 0} (a : A) (w : Host) (o : Options) (acts : List Act)
    → leave_try ((serve_clients w o >> pure a) (threadless acts)) ≡ (
        if w.starts 0
        then if serves_all w o then exited exit_success else terminated
        else exited exit_failure)
unfolding serve_clients leave_try
serve_clients-starts a w o acts = elim (Bool-cases (w.starts 0)) [
  | inl e ↦ serve_clients-serves_all a w o acts e ∙ rw e refl
  | inr e ↦ rw (e, leave_try) refl
]

abbrev registered : List Act
registered =
    registration_finished
    ∷ service_constructed
    ∷ object_created (text "/com/telecom/smpp/server")
    ∷ bus_connected (text "com.telecom.smpp.Server")
    ∷ []

-- The calls for the bus, before the first thread.
leave_try-calls :
    {A : Type 0} (connects creates serves finishes starts : Bool) (f : M A) (x : Ending)
    → leave_try (f (threadless registered)) ≡ (if starts then x else exited exit_failure)
    → leave_try (
        (call connects (bus_connected (text "com.telecom.smpp.Server"))
            >> (call creates (object_created (text "/com/telecom/smpp/server"))
                >> (call serves service_constructed >> (call finishes registration_finished >> f))))
          new_process)
      ≡ (if connects && creates && serves && finishes && starts then x else exited exit_failure)
unfolding leave_try
leave_try-calls true true true true starts f x h = h
leave_try-calls true true true false starts f x h = refl
leave_try-calls true true false finishes starts f x h = refl
leave_try-calls true false serves finishes starts f x h = refl
leave_try-calls false creates serves finishes starts f x h = refl

module _ (inet_pton : Text → Option ℕ) where
  -- The file can be read, the server has its name and its methods on the bus, and a thread can be
  -- started.
  unfoldable pub is_ready : Host → Options → Bool
  is_ready w o =
      is_some (loaded_lines inet_pton (w.lines_of o.ip_config))
      && w.connects (text "com.telecom.smpp.Server")
      && w.creates
      && w.serves
      && w.finishes
      && w.starts 0

  server_try-is_ready :
      (w : Host) (o : Options)
      → leave_try (server_try inet_pton w o new_process) ≡ (
          if is_ready w o
          then if serves_all w o then exited exit_success else terminated
          else exited exit_failure)
  unfolding server_try is_ready leave_try
  server_try-is_ready w o = elim (Option-cases (loaded_lines inet_pton (w.lines_of o.ip_config))) [
    | inl e ↦ rw (e, leave_try) refl
    | inr (v, e) ↦ rw e (
        leave_try-calls _ w.creates w.serves w.finishes (w.starts 0)
          (serve_clients w o >> pure (new_server v)) _
          (serve_clients-starts (new_server v) w o registered))
  ]

  server_main_cases :
      (w : Host) (p : Parsed)
      → (elim p [
        | parsed o ↦ leave_try (server_try inet_pton w o new_process)
        | helped ↦ exited exit_success
        | uncaught ↦ terminated
      ])
        ≡ (elim p [
          | parsed o ↦
              if is_ready w o
              then if serves_all w o then exited exit_success else terminated
              else exited exit_failure
          | helped ↦ exited exit_success
          | uncaught ↦ terminated
        ])
  server_main_cases w (parsed o) = server_try-is_ready w o
  server_main_cases w helped = refl
  server_main_cases w uncaught = refl

  -- How the server's main ends, whatever its environment, its arguments and the calls of the host give.
  -- With --help it ends with EXIT_SUCCESS, and where an option makes it throw it is terminated. Where the
  -- options can be read, it ends with EXIT_FAILURE if and only if something fails before the D-Bus thread
  -- is started; if the signals or the port cannot be had, or a worker cannot be started, or a completion
  -- throws, the process is terminated without the message of the `catch`; else it ends with EXIT_SUCCESS.
  pub server_main_lem :
      (w : Host) (env_level env_port : Option Text) (argv : List Text)
      → server_main inet_pton w env_level env_port argv
        ≡ (elim (main_options env_level env_port argv) [
          | parsed o ↦
              if is_ready w o
              then if serves_all w o then exited exit_success else terminated
              else exited exit_failure
          | helped ↦ exited exit_success
          | uncaught ↦ terminated
        ])
  unfolding server_main
  server_main_lem w env_level env_port argv =
      server_main_cases w (main_options env_level env_port argv)
