-- ===== src/Scheduler/Examples.antt =====
-- mingfwq/scheduler.cpp on thread 1 with its main fiber at 0, the fiber of idle at 1, and a queue
-- of a job for thread 8, one of a fiber that has not begun, and a callback.
use mingfwq.Prelude.{◌≡◌, refl, arith, Bool, true, false, none, some, List, [], ◌∷◌}
use mingfwq.Fiber.{init, exec, Fiber, World, put}
use mingfwq.Fiber.Switch.{yields_ready}
use mingfwq.Scheduler.{Job, Found, Run, Burst, pick, round}
use mingfwq.Scheduler.Pick.{FirstFit, pick-FirstFit}
use mingfwq.Scheduler.Fit.{IsFit, Rounds}
use mingfwq.Scheduler.Passes.{Passes}
use mingfwq.Scheduler.Round.{round-Rounds}

abbrev nowhere : Fiber
nowhere = record { id = 0; stack = false; state = init; cb = none; flow = 0 }

abbrev thread_world : World
thread_world = record {
  fibers =
      put
        (put
          (put (λ a. nowhere) 0
            (record { id = 0; stack = false; state = exec; cb = none; flow = 0 }))
          1 (record { id = 1; stack = true; state = init; cb = some 7; flow = 1 }))
        2 (record { id = 2; stack = true; state = init; cb = some 3; flow = 2 });
  last_id = 2;
  count = 3;
  current = some 0;
  thread_fiber = some 0;
  main_fiber = some 0;
  running = 0;
}

abbrev foreign_job : Job
foreign_job = record { fiber = none; cb = some 5; thread = some 8 }

abbrev fiber_job : Job
fiber_job = record { fiber = some 2; cb = none; thread = none }

abbrev cb_job : Job
cb_job = record { fiber = none; cb = some 6; thread = some 1 }

abbrev three_jobs : Run
three_jobs = record {
  world = thread_world;
  queue = foreign_job ∷ fiber_job ∷ cb_job ∷ [];
  active = 0;
  idle = 0;
  cb_fiber = none;
  tickles = 0;
}

-- The fiber takes the second job, which is not for thread 8, and wakes another thread for the rest.
second_taken :
    pick thread_world.fibers 1 three_jobs.queue
    ≡ some (record { tickle = true; job = some fiber_job; queue = foreign_job ∷ cb_job ∷ [] })
unfolding pick
second_taken = refl

three_jobs-IsFit : IsFit 0 1 three_jobs
three_jobs-IsFit = record {
  main = refl;
  current = refl;
  jobs = (refl, (refl, (refl, tt)));
  off_main = ((λ e. cc e), ((λ e. cc e), ((λ e. cc e), tt)));
  idle_off = omega arith;
  idle_rests = refl;
  spare = λ c e. cc e;
}

abbrev one_comes : Burst
one_comes = record { ending = yields_ready; added = cb_job ∷ [] }

pick-FirstFit_example :
    (f : Found) × (pick thread_world.fibers 1 three_jobs.queue ≡ some f)
    × FirstFit thread_world.fibers 1 three_jobs.queue f
pick-FirstFit_example =
    pick-FirstFit thread_world.fibers 1 three_jobs.queue (refl, (refl, (refl, tt)))

round-Rounds_example :
    (go : Bool) × (s' : Run) × (after : List Job) × (round 1 1 20 9 one_comes three_jobs
      ≡ some (go, s'))
    × Rounds 0 1 (cb_job ∷ []) after three_jobs s'
    × Passes 1 1 9 one_comes three_jobs after go
round-Rounds_example =
    round-Rounds 1 0 1 20 9 one_comes three_jobs three_jobs-IsFit ((refl, tt), ((λ e. cc e), tt))
      (omega arith, omega arith, ((λ e. cc e), ((λ e. cc e), ((λ e. cc e), tt))))
      (omega arith, omega arith) refl
