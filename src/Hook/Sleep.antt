-- ===== src/Hook/Sleep.antt =====
-- sleep, usleep and nanosleep of mingfwq/hook.cpp where hooks are enabled: a fiber sleeps by a
-- timer that schedules it, and gives up the thread.
--
-- The callback of the timer, which calls schedule, has the name of the fiber. `t` is the address of
-- the new timer and `x` where GetThis would allocate. The result `none` is a null pointer.
mod Examples
use mingfwq.Prelude.{
  ℕ, ◌+◌, ◌-◌, ◌*◌, ◌/◌, ◌%◌, ◌^◌, ◌<◌, ◌≤◌, ◌≡◌, ◌≢◌, refl, sym, ap, ◌∙◌, arith, Bool, true, false,
  Option, none, some, ltb, ◌==◌, if◌then◌else◌,
}
use mingfwq.Timer.{Manager, add_timer, add64, is_set}
use mingfwq.Timer.Order.{elem}
use mingfwq.Timer.Invariant.{IsValid, add_timer-IsValid, add_timer_cb}
use mingfwq.Fiber.{State, hold, World, get_this, yield_to_hold}
use mingfwq.Fiber.Switch.{yields_hold, leave, leave_lem, leave_hold, get_this_current}

-- What is called, with its arguments.
pub data Pause : Type 0 where
  seconds : ℕ → Pause
  microseconds : ℕ → Pause
  timespec : ℕ → ℕ → Pause

-- The bits of an int as a uint64_t.
abbrev pub widen : ℕ → ℕ
widen n = if ltb n (2 ^ 31) then n else n + 2 ^ 64 - 2 ^ 32

-- The milliseconds that addTimer is called with: sleep multiplies an unsigned int, and nanosleep
-- keeps an int.
pub timeout : Pause → ℕ
timeout (seconds n) = n * 1000 % 2 ^ 32
timeout (microseconds n) = n / 1000
timeout (timespec sec nsec) = widen ((sec * 1000 + nsec / 1000 / 1000) % 2 ^ 32)

-- sleep, usleep and nanosleep: whether onTimerInsertedAtFront is called, the timers, the fibers.
pub pause : ℕ → ℕ → ℕ → Pause → Manager → World → Option (Bool × Manager × World)
unfolding timeout
pause now t x p timers w =
    let r = get_this x w in
    let k = add_timer now t (timeout p) r.0 false timers in
    elim (yield_to_hold x r.1) [ none ↦ none | some w' ↦ some (k.0, k.1, w') ]

-- The time that is asked for, in nanoseconds.
abbrev pub nanoseconds : Pause → ℕ
nanoseconds (seconds n) = n * 1000000000
nanoseconds (microseconds n) = n * 1000
nanoseconds (timespec sec nsec) = sec * 1000000000 + nsec

-- The time is at most what is asked for, and less than a millisecond under it.
timeout-nanoseconds :
    (p : Pause)
    → nanoseconds p < 2147483648 * 1000000
    → (timeout p * 1000000 ≤ nanoseconds p) × (nanoseconds p < (timeout p + 1) * 1000000)
unfolding timeout
timeout-nanoseconds (seconds n) h = (omega (arith, h), omega (arith, h))
timeout-nanoseconds (microseconds n) h = (omega (arith, h), omega (arith, h))
timeout-nanoseconds (timespec sec nsec) h = (ground (arith, h), ground (arith, h))

-- A fiber that is current and not the main one, and pauses for less than 2^31 milliseconds, holds,
-- and the main fiber goes on. The timers stay valid, and have with the old ones a timer whose
-- callback has the name of the fiber. It is due after the time that was asked for, cut to whole
-- milliseconds, and so up to a millisecond early.
pub pause-IsValid :
    (now t x a m : ℕ) (p : Pause) (timers : Manager) (w : World)
    → IsValid timers
    → is_set (timers.heap t).cb ≡ false
    → w.current ≡ some a
    → w.main_fiber ≡ some m
    → a ≢ m
    → nanoseconds p < 2147483648 * 1000000
    → (b : Bool) × (timers' : Manager) × (w' : World) × (pause now t x p timers w
        ≡ some (b, timers', w'))
      × IsValid timers'
      × ((c : ℕ) → elem c timers'.timers ≡ (if t == c then true else elem c timers.timers))
      × ((timers'.heap t).cb ≡ some a)
      × ((ms : ℕ) × ((timers'.heap t).next ≡ add64 now ms)
          × (ms * 1000000 ≤ nanoseconds p)
          × (nanoseconds p < (ms + 1) * 1000000))
      × (w'.current ≡ some m)
      × (w'.running ≡ (w.fibers m).flow)
      × ((w'.fibers a).state ≡ hold)
unfolding pause
pause-IsValid now t x a m p timers w v fresh cur main n short =
    let (w', q, c, r, f, k) = leave_lem yields_hold x a m w n main cur in
    let same : get_this x w ≡ (a, w) = get_this_current x a w cur in
    let held : yield_to_hold x w ≡ some w' = sym (leave_hold x w) ∙ q in
    let (iv, el, due, wakes) = add_timer-IsValid now t (timeout p) a false timers v fresh in
    let here : (a == a) ≡ true = ground arith in
    (
      (add_timer now t (timeout p) a false timers).0,
      (add_timer now t (timeout p) a false timers).1,
      w',
      rw (pause, same, held)
          (ap (λ r. let k = add_timer now t (timeout p) r.0 false timers in some (k.0, k.1, w'))
            same),
      iv,
      el,
      add_timer_cb now t (timeout p) a false timers,
      (timeout p, due, (timeout-nanoseconds p short).0, (timeout-nanoseconds p short).1),
      c,
      r,
      ap (λ g. g.state) (f a) ∙ rw here refl,
    )
