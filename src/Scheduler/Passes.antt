-- ===== src/Scheduler/Passes.antt =====
-- What a round of Scheduler::run (mingfwq/scheduler.cpp) makes of the queue of jobs.
use mingfwq.Prelude.{
  ℕ, ◌≡◌, ap, arith, Bool, true, false, not, ◌⊎◌, Option, none, some, List, ◌∷◌, ◌++◌,
  if◌then◌else◌, All,
}
use mingfwq.Fiber.{Fiber, is_over}
use mingfwq.Scheduler.{Job, Run, Burst, state_of, is_term, is_some, is_foreign, is_busy}
use mingfwq.Scheduler.Pick.{IsSkipped}
use mingfwq.Scheduler.Bursts.{again}

-- What running the job `j`, with the jobs `left` besides, makes of the queue: its fiber is started,
-- or a fiber for its callback, which is the one that is kept or a new one; or the fiber is over and
-- the job has no callback.
pub data Runs (h : ℕ → Fiber) (cb_fiber : Option ℕ) (fresh : ℕ) (b : Burst) (j : Job)
    (left : List Job) : List Job → Type 0 where
  resumed :
      (f : ℕ)
      → j.fiber ≡ some f
      → is_over (h f).state ≡ false
      → Runs h cb_fiber fresh b j left ((left ++ b.added) ++ again f b.ending)
  called :
      (c : ℕ)
      → (j.fiber ≡ none) ⊎ ((f : ℕ) × (j.fiber ≡ some f) × (is_over (h f).state ≡ true))
      → is_some j.cb ≡ true
      → (cb_fiber ≡ some c) ⊎ (c ≡ fresh)
      → Runs h cb_fiber fresh b j left ((left ++ b.added) ++ again c b.ending)
  over :
      (f : ℕ)
      → j.fiber ≡ some f
      → is_over (h f).state ≡ true
      → is_some j.cb ≡ false
      → Runs h cb_fiber fresh b j left left

-- What the search and the job lead to: `after` is the queue behind a round that goes on or not.
pub data Passes (me idle_fiber fresh : ℕ) (b : Burst) (s : Run) (after : List Job)
    : Bool → Type 0 where
  leaves :
      All (IsSkipped s.world.fibers me) s.queue
      → is_term (state_of idle_fiber s) ≡ true
      → after ≡ s.queue
      → Passes me idle_fiber fresh b s after false
  idles :
      All (IsSkipped s.world.fibers me) s.queue
      → is_term (state_of idle_fiber s) ≡ false
      → after ≡ s.queue ++ b.added
      → Passes me idle_fiber fresh b s after true
  takes :
      (before later : List Job) (j : Job)
      → s.queue ≡ before ++ j ∷ later
      → All (IsSkipped s.world.fibers me) before
      → is_foreign me j ≡ false
      → is_busy s.world.fibers j ≡ false
      → Runs s.world.fibers s.cb_fiber fresh b j (before ++ later) after
      → Passes me idle_fiber fresh b s after true

-- A round that found no job.
pub Passes-idle :
    (me idle_fiber fresh : ℕ) (b : Burst) (s t : Run) (go : Bool)
    → t.queue ≡ s.queue
    → All (IsSkipped s.world.fibers me) s.queue
    → go ≡ not (is_term (state_of idle_fiber s))
    → Passes me idle_fiber fresh b s (if go then t.queue ++ b.added else t.queue) go
Passes-idle me idle_fiber fresh b s t true e a g =
    idles a (ground (arith, g)) (ap (λ q. q ++ b.added) e)
Passes-idle me idle_fiber fresh b s t false e a g = leaves a (ground (arith, g)) e
