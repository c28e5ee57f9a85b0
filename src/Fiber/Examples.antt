-- ===== src/Fiber/Examples.antt =====
-- mingfwq/fiber.cpp on a thread with its first fiber at 0 and another at 2 that has not begun.
use mingfwq.Prelude.{◌≡◌, refl, arith, true, false, none, some}
use mingfwq.Fiber.{init, exec, Fiber, World, put, swap_in}
use mingfwq.Fiber.Reachable.{starts, Reach, here, next, IsValid, Reach-IsValid}

abbrev pub nowhere : Fiber
nowhere = record { id = 0; stack = false; state = init; cb = none; flow = 0 }

abbrev pub first : Fiber
first = record { id = 0; stack = false; state = exec; cb = none; flow = 0 }

abbrev pub second : Fiber
second = record { id = 1; stack = true; state = init; cb = some 3; flow = 2 }

abbrev pub two_fibers : World
two_fibers = record {
  fibers = put (put (λ a. nowhere) 0 first) 2 second;
  last_id = 1;
  count = 2;
  current = some 0;
  thread_fiber = some 0;
  main_fiber = some 0;
  running = 0;
}

two_fibers-IsValid : IsValid 0 0 two_fibers
two_fibers-IsValid = record {
  main = refl;
  fiber = 0;
  current = refl;
  running = refl;
  executing = λ d. absurd (d refl);
  stored = λ b d st. ground (arith, d, st);
}

-- swapIn of the second fiber.
second_started : (w' : World) × (swap_in 2 two_fibers ≡ some w')
unfolding swap_in
second_started = (_, refl)

two_steps : Reach 0 two_fibers second_started.0
two_steps = next here (starts 2 (omega arith) refl refl second_started.1)

Reach-IsValid_example : IsValid 0 0 second_started.0
Reach-IsValid_example = Reach-IsValid two_fibers-IsValid two_steps
