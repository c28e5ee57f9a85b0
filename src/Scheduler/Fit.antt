-- ===== src/Scheduler/Fit.antt =====
-- The state of Scheduler::run (mingfwq/scheduler.cpp) between two rounds, and what a round keeps of it.
use mingfwq.Prelude.{
  ℕ, ◌≡◌, ◌≢◌, refl, sym, subst, arith, false, some, List, ◌++◌, ◌==◌, All, All-append,
}
use mathlib.Core.Option.{some-injective}
use mingfwq.Fiber.{is_exec}
use mingfwq.Fiber.Switch.{Ending, yields_ready, yields_hold, swaps_out, returns, throws}
use mingfwq.Scheduler.{Job, Run, state_of}
use mingfwq.Scheduler.Pick.{IsJob}
use mingfwq.Scheduler.Bursts.{settled, again}
use mingfwq.Scheduler.Callbacks.{IsSpare}

-- No job is of the fiber `c`.
abbrev pub Avoids : ℕ → List Job → Type 0
Avoids c queue = All (λ j. j.fiber ≢ some c) queue

-- The state of run between two rounds on a thread with the main fiber `m`: the main fiber is
-- current, every job has a fiber or a callback and is not the main fiber's, the fiber of idle does
-- not run, and the fiber kept for callbacks can be reset and has no job.
pub record IsFit (m idle_fiber : ℕ) (s : Run) : Type 0 where
  pub main : s.world.main_fiber ≡ some m
  pub current : s.world.current ≡ some m
  pub jobs : All IsJob s.queue
  pub off_main : Avoids m s.queue
  pub idle_off : idle_fiber ≢ m
  pub idle_rests : is_exec (state_of idle_fiber s) ≡ false
  pub spare :
      (c : ℕ) → s.cb_fiber ≡ some c → IsSpare c s × (c ≢ m) × (c ≢ idle_fiber) × Avoids c s.queue

-- A round from `s` to `s'` with the queue `after`: the counts are what they were, the flow of the main
-- fiber goes on, and the state is fit again, if no job that came in is of the fiber that is kept
-- for callbacks.
pub record Rounds (m idle_fiber : ℕ) (added after : List Job) (s s' : Run) : Type 0 where
  pub queue : s'.queue ≡ after
  pub active : s'.active ≡ s.active
  pub idle : s'.idle ≡ s.idle
  pub running : s'.world.running ≡ s.world.running
  pub fit : ((c : ℕ) → s'.cb_fiber ≡ some c → Avoids c added) → IsFit m idle_fiber s'

pub settled_rests : (e : Ending) → is_exec (settled e) ≡ false
settled_rests yields_ready = refl
settled_rests yields_hold = refl
settled_rests swaps_out = refl
settled_rests returns = refl
settled_rests throws = refl

pub again-IsJob : (f : ℕ) (e : Ending) → All IsJob (again f e)
again-IsJob f yields_ready = (refl, tt)
again-IsJob f yields_hold = tt
again-IsJob f swaps_out = tt
again-IsJob f returns = tt
again-IsJob f throws = tt

pub again-Avoids : (f c : ℕ) (e : Ending) → f ≢ c → Avoids c (again f e)
again-Avoids f c yields_ready n = (λ q. n (some-injective _ _ q), tt)
again-Avoids f c yields_hold n = tt
again-Avoids f c swaps_out n = tt
again-Avoids f c returns n = tt
again-Avoids f c throws n = tt

pub not_same : (a b : ℕ) → a ≢ b → (a == b) ≡ false
not_same a b n = ground (arith, n)

-- The queue after a burst: what was left, what came in, and the fiber itself.
pub All-queue :
    (P : Job → Type 0) (left added more queue : List Job)
    → queue ≡ (left ++ added) ++ more
    → All P left
    → All P added
    → All P more
    → All P queue
All-queue P left added more queue e p q r =
    subst (All P) (sym e) (All-append P (left ++ added) more (All-append P left added p q) r)

-- What came in: jobs, and none of the main fiber.
abbrev pub IsAdded : ℕ → List Job → Type 0
IsAdded m added = All IsJob added × Avoids m added
