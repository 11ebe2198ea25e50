-- ===== src/Session/Throttle.antt =====
-- The token bucket of `throttle_check`, check after check.
use opensmsc.Session.Submit.{take_token, throttle_check}
use opensmsc.Session.State.{Session, World, token}
use native.Mathlib.Nat.{add-mul, mul-suc}
use opensmsc.Base.{
  ℕ, List, [], arith, if◌then◌else◌, suc, ◌*◌, ◌+◌, ◌-◌, ◌∷◌, ◌≡◌, ◌≢◌, ◌≤◌, Bool, false, true,
  refl, zero,
}

-- Checks at the times of a list of worlds, and how many of them were let through.
unfoldable pub checks : Session → List World → ℕ × Session
checks s [] = (0, s)
checks s (w ∷ ws) =
    let (allowed, s') = throttle_check w s in
    let (n, t) = checks s' ws in ((if allowed then suc n else n), t)

-- The times of the worlds do not run backwards.
abbrev pub Ascending : ℕ → List World → Type 0
Ascending t [] = Unit {0}
Ascending t (w ∷ ws) = (t ≤ w.steady_ns) × Ascending w.steady_ns ws

-- One check pays for what it lets through out of the tokens and the refill of the time elapsed.
throttle_check_pays :
    (w : World) (s : Session)
    → s.max_submit_per_sec ≢ 0
    → s.tb_last_refill ≤ w.steady_ns
    → let r = throttle_check w s in
      (r.1.tb_last_refill ≡ w.steady_ns)
      × (r.1.max_submit_per_sec ≡ s.max_submit_per_sec)
      × ((if r.0 then token else 0) + r.1.tb_tokens
          ≤ s.tb_tokens + (w.steady_ns - s.tb_last_refill) * s.max_submit_per_sec)
unfolding throttle_check take_token
throttle_check_pays w s h t = ground arith

time_splits : (a b c r : ℕ) → a ≤ b → b ≤ c → (b - a) * r + (c - b) * r ≡ (c - a) * r
time_splits a b c r h k = let e : c - a ≡ (b - a) + (c - b) = omega arith in rw (e, add-mul)

-- A check that lets one through adds its token to those that the later checks pay for.
pay_step :
    (allowed : Bool) (n b c x y z q : ℕ)
    → (if allowed then token else 0) + b ≤ q + x
    → n * token + c ≤ b + y
    → x + y ≡ z
    → (if allowed then suc n else n) * token + c ≤ q + z
pay_step true n b c x y z q h k e = omega arith
pay_step false n b c x y z q h k e = omega arith

checks_pay :
    (ws : List World) (s : Session)
    → s.max_submit_per_sec ≢ 0
    → Ascending s.tb_last_refill ws
    → let r = checks s ws in
      (s.tb_last_refill ≤ r.1.tb_last_refill)
      × (r.0 * token + r.1.tb_tokens
          ≤ s.tb_tokens + (r.1.tb_last_refill - s.tb_last_refill) * s.max_submit_per_sec)
unfolding checks
checks_pay [] s h a = (omega arith, omega arith)
checks_pay (w ∷ ws) s h a =
    let (last, rate, paid) = throttle_check_pays w s h a.0 in
    let s1 = (throttle_check w s).1 in
    let (later, rest) = checks_pay ws s1 (rw rate h) (rw last a.1) in
    let split =
      time_splits s.tb_last_refill w.steady_ns (checks s1 ws).1.tb_last_refill s.max_submit_per_sec
        a.0 (rw last at later) in
    let rest' = rw (last, rate) at rest in
    (
      omega (arith, later, last, a.0),
      pay_step (throttle_check w s).0 (checks s1 ws).0 _ _ _ _ _ _ paid rest' split,
    )

-- With a limit set, a bucket that is not overfull, and a clock that does not run backwards, any sequence
-- of checks lets through no more than the size of the bucket and what the elapsed time refills, in
-- billionths of a message.
pub checks_bounded :
    (ws : List World) (s : Session)
    → s.max_submit_per_sec ≢ 0
    → s.tb_tokens ≤ s.max_submit_per_sec * token
    → Ascending s.tb_last_refill ws
    → let r = checks s ws in
      r.0 * token
      ≤ s.max_submit_per_sec * token
        + (r.1.tb_last_refill - s.tb_last_refill) * s.max_submit_per_sec
checks_bounded ws s h full a = omega (arith, checks_pay ws s h a)

-- With no limit set every check passes and nothing changes.
pub throttle_check_unlimited :
    (w : World) (s : Session) → s.max_submit_per_sec ≡ 0 → throttle_check w s ≡ (true, s)
unfolding throttle_check
throttle_check_unlimited w s h = ground arith

refill_pays : (e r : ℕ) → token ≤ e → r ≢ 0 → token ≤ e * r
refill_pays e zero h k = absurd (k refl)
refill_pays e (suc r) h k = omega (arith, mul-suc e r)

-- A check that comes a second or more after the last refill lets its message through.
pub throttle_check_recovers :
    (w : World) (s : Session)
    → s.tb_last_refill + token ≤ w.steady_ns
    → (throttle_check w s).0 ≡ true
unfolding throttle_check take_token
throttle_check_recovers w s h =
    ground (arith, refill_pays (w.steady_ns - s.tb_last_refill) s.max_submit_per_sec)
