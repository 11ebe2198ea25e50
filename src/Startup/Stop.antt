-- ===== src/Startup/Stop.antt =====
-- SMPPServer/src/main.cpp from the call of `io_ctx.run()` on: the threads, and how a signal ends them.
-- asio gives a completion to any thread in `run`, and lets `run` return when the context is stopped;
-- `enterEventLoop` returns when it is asked to. Accepted connections change the server's objects only.
use opensmsc.Base.{
  Bool, arith, false, suc, true, ℕ, ◌+◌, ◌≡◌, ◌⊎◌, ◌<◌, ◌≤◌, Bool-cases, inl, inr, refl, zero,
}

-- Where the thread of `main` is.
pub data Place : Type 0 where
  serving joining_workers joining_bus ended : Place

pub record Running : Type 0 where
  -- `signals` is waited for
  pub waits : Bool
  -- `io_ctx.stop()` and `leaveEventLoop()` have been called
  pub stopped : Bool
  pub left : Bool
  -- the workers in `io_ctx.run()`, and whether the D-Bus thread is in its loop
  pub workers : ℕ
  pub looping : Bool
  pub place : Place

-- With so many workers, all threads running.
abbrev pub serve_with : ℕ → Running
serve_with k = record {
  waits = true;
  stopped = false;
  left = false;
  workers = k;
  looping = true;
  place = serving;
}

infix 40 ◌⇒◌
pub data ◌⇒◌ (s : Running) (t : Running) : Type 0 where
  signal_came : s.waits ≡ true → t ≡ record s { waits = false; stopped = true; left = true } → s ⇒ t
  worker_returned :
      (k : ℕ) → s.stopped ≡ true → s.workers ≡ suc k → t ≡ record s { workers = k } → s ⇒ t
  main_returned :
      s.stopped ≡ true → s.place ≡ serving → t ≡ record s { place = joining_workers } → s ⇒ t
  workers_joined :
      s.place ≡ joining_workers → s.workers ≡ 0 → t ≡ record s { place = joining_bus } → s ⇒ t
  bus_returned : s.left ≡ true → s.looping ≡ true → t ≡ record s { looping = false } → s ⇒ t
  bus_joined : s.place ≡ joining_bus → s.looping ≡ false → t ≡ record s { place = ended } → s ⇒ t

-- n steps.
pub data Steps : ℕ → Running → Running → Type 0 where
  here : {s : Running} → Steps 0 s s
  next : {n : ℕ} {s t u : Running} → Steps n s t → t ⇒ u → Steps (suc n) s u

-- What is left to do, in steps.
abbrev to_do : Place → ℕ
to_do serving = 3
to_do joining_workers = 2
to_do joining_bus = 1
to_do ended = 0

abbrev one_if : Bool → ℕ
one_if true = 1
one_if false = 0

abbrev work : Running → ℕ
work s = one_if s.waits + s.workers + one_if s.looping + to_do s.place

-- Until the signal all threads run, behind it all are told to end, and a join waits for what it joins.
abbrev IsServing : ℕ → Running → Type 0
IsServing k s =
    (s.waits ≡ true)
    × (s.stopped ≡ false)
    × (s.left ≡ false)
    × (s.workers ≡ k)
    × (s.looping ≡ true)
    × (s.place ≡ serving)

abbrev IsStopping : Running → Type 0
IsStopping s = (s.waits ≡ false) × (s.stopped ≡ true) × (s.left ≡ true)

abbrev Inv : ℕ → Running → Type 0
Inv k s =
    (IsServing k s ⊎ IsStopping s)
    × ((s.workers ≡ 0) ⊎ (2 ≤ to_do s.place))
    × ((s.looping ≡ false) ⊎ (1 ≤ to_do s.place))

step-work : {s t : Running} → s ⇒ t → work s ≡ suc (work t)
step-work (signal_came w e) = ground arith
step-work (worker_returned k h w e) = ground arith
step-work (main_returned h p e) = ground arith
step-work (workers_joined p w e) = ground arith
step-work (bus_returned h l e) = ground arith
step-work (bus_joined p l e) = ground arith

step-Inv : (k : ℕ) {s t : Running} → s ⇒ t → Inv k s → Inv k t
step-Inv k (signal_came w e) i = ground arith
step-Inv k (worker_returned j h w e) i = ground arith
step-Inv k (main_returned h p e) i = ground arith
step-Inv k (workers_joined p w e) i = ground arith
step-Inv k (bus_returned h l e) i = ground arith
step-Inv k (bus_joined p l e) i = ground arith

Steps-Inv : (k : ℕ) {n : ℕ} {s t : Running} → Steps n s t → Inv k s → Inv k t
Steps-Inv k here i = i
Steps-Inv k (next steps st) i = step-Inv k st (Steps-Inv k steps i)

Steps-work : {n : ℕ} {s t : Running} → Steps n s t → work s ≡ n + work t
Steps-work here = omega arith
Steps-work (next steps st) = omega (arith, Steps-work steps, step-work st)

zero-or_suc : (n : ℕ) → (n ≡ 0) ⊎ ((j : ℕ) × (n ≡ suc j))
zero-or_suc zero = inl refl
zero-or_suc (suc j) = inr (j, refl)

-- Behind the signal, a process that has not ended can take a step.
next_at :
    (k : ℕ) (s : Running) (p : Place)
    → Inv k s
    → s.waits ≡ false
    → s.place ≡ p
    → ((s.place ≡ ended) × (work s ≡ 0)) ⊎ ((t : Running) × (s ⇒ t))
next_at k s serving i w e = inr (_, main_returned (ground arith) e refl)
next_at k s joining_workers i w e = elim (zero-or_suc s.workers) [
  | inl none_left ↦ inr (_, workers_joined e none_left refl)
  | inr (j, some_left) ↦ inr (_, worker_returned j (ground arith) some_left refl)
]
next_at k s joining_bus i w e = elim (Bool-cases s.looping) [
  | inl loops ↦ inr (_, bus_returned (ground arith) loops refl)
  | inr over ↦ inr (_, bus_joined e over refl)
]
next_at k s ended i w e = inl (e, ground arith)

-- Until a signal comes, no thread of a server with k workers leaves its loop. From then on some thread
-- can go on in whatever order the threads run, until k + 5 steps have been taken, the signal with them:
-- then every thread is joined and `main` is at its end.
pub signal_ends :
    (k n : ℕ) (s : Running)
    → Steps n (serve_with k) s
    → ((s.waits ≡ true) × (n ≡ 0))
      ⊎ ((s.waits ≡ false)
          × (n ≤ k + 5)
          × (((n ≡ k + 5) × (s.place ≡ ended) × (s.workers ≡ 0) × (s.looping ≡ false))
              ⊎ ((n < k + 5) × (t : Running) × (s ⇒ t))))
signal_ends k n s steps =
    let i =
      Steps-Inv k steps
        (inl (refl, refl, refl, refl, refl, refl), inr (omega arith), inr (omega arith)) in
    let total = Steps-work steps in
    elim (Bool-cases s.waits) [
      | inl w ↦ inl (w, ground arith)
      | inr w ↦ elim (next_at k s s.place i w refl) [
        | inl (e, over) ↦ inr (w, omega arith, inl (omega arith, e, ground arith, ground arith))
        | inr (t, st) ↦ inr (w, omega arith, inr (omega (arith, step-work st), t, st))
      ]
    ]
