-- ===== src/Hook/Sleep/Examples.antt =====
-- A fiber that sleeps for two seconds.
use mingfwq.Prelude.{
  ℕ, ◌+◌, ◌*◌, ◌≤◌, ◌<◌, ◌≡◌, refl, arith, Bool, true, false, none, some, [], ◌==◌, if◌then◌else◌,
}
use mingfwq.Timer.{Timer, Manager, add64}
use mingfwq.Timer.Order.{elem}
use mingfwq.Timer.Invariant.{IsValid}
use mingfwq.Fiber.{exec, hold, Fiber, World}
use mingfwq.Hook.Sleep.{seconds, nanoseconds, pause, pause-IsValid}

abbrev unarmed : Timer
unarmed = record { recurring = false; ms = 0; next = 0; cb = none }

abbrev no_timers : Manager
no_timers = record { heap = λ a. unarmed; timers = []; tickled = false }

no_timers-IsValid : IsValid no_timers
no_timers-IsValid = record { sorted = tt; armed = λ b. ground arith }

-- The fiber at `a` in the state EXEC.
abbrev busy : ℕ → Fiber
busy a = record { id = a; stack = true; state = exec; cb = none; flow = a }

abbrev in_second : World
in_second = record {
  fibers = busy;
  last_id = 2;
  count = 2;
  current = some 2;
  thread_fiber = some 0;
  main_fiber = some 0;
  running = 2;
}

pause-IsValid_example :
    (b : Bool) × (timers' : Manager) × (w' : World) × (pause 100 7 9 (seconds 2) no_timers in_second
      ≡ some (b, timers', w'))
    × IsValid timers'
    × ((c : ℕ) → elem c timers'.timers ≡ (if 7 == c then true else false))
    × ((timers'.heap 7).cb ≡ some 2)
    × ((ms : ℕ) × ((timers'.heap 7).next ≡ add64 100 ms)
        × (ms * 1000000 ≤ nanoseconds (seconds 2))
        × (nanoseconds (seconds 2) < (ms + 1) * 1000000))
    × (w'.current ≡ some 0)
    × (w'.running ≡ 0)
    × ((w'.fibers 2).state ≡ hold)
pause-IsValid_example =
    pause-IsValid 100 7 9 2 0 (seconds 2) no_timers in_second no_timers-IsValid refl refl refl
      (λ e. absurd (omega (arith, e))) (omega arith)
