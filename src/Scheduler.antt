-- ===== src/Scheduler.antt =====
-- mingfwq/scheduler.h and mingfwq/scheduler.cpp: the queue of jobs, and one round of the loop of
-- Scheduler::run on one thread.
--
-- A thread has a number, and `none` is any thread, the -1 of the source. What the code of a fiber
-- does while it runs is an argument of the round: how it stops, and the jobs that come into the
-- queue meanwhile. The result `none` of a round is a failed assertion, or the end of the thread.
-- Counters are size_t.
pub mod Pick
pub mod Bursts
pub mod Callbacks
pub mod Fit
pub mod Branches
pub mod Idling
pub mod Passes
pub mod Round
mod Examples
use mingfwq.Prelude.{
  ℕ, ◌+◌, ◌-◌, ◌%◌, ◌^◌, Bool, true, false, not, ◌&&◌, ◌||◌, Option, none, some, List, [], ◌∷◌,
  ◌++◌, ◌==◌, if◌then◌else◌,
}
use mingfwq.Fiber.{
  State, init, hold, exec, term, ready, except, is_exec, is_over, Fiber, World, set_state,
  make_fiber, reset, swap_in,
}
use mingfwq.Fiber.Switch.{Ending, leave}

infixl 5 ◌>>=◌
abbrev pub ◌>>=◌ : {A B : Type 0} → Option A → (A → Option B) → Option B
none >>= f = none
some a >>= f = f a

-- FiberAndThread
pub record Job : Type 0 where
  pub fiber : Option ℕ
  pub cb : Option ℕ
  pub thread : Option ℕ

abbrev pub is_some : Option ℕ → Bool
is_some none = false
is_some (some a) = true

abbrev pub is_empty : List Job → Bool
is_empty [] = true
is_empty (j ∷ js) = false

-- scheduleNoLock: whether somebody has to be woken, and the queue.
pub schedule_no_lock : Job → List Job → Bool × List Job
schedule_no_lock j queue =
    (is_empty queue, if is_some j.fiber || is_some j.cb then queue ++ j ∷ [] else queue)

-- The job is for another thread than `me`.
abbrev pub is_foreign : ℕ → Job → Bool
is_foreign me j = elim j.thread [ none ↦ false | some t ↦ not (t == me) ]

-- The fiber of the job runs on some thread.
abbrev pub is_busy : (ℕ → Fiber) → Job → Bool
is_busy h j = elim j.fiber [ none ↦ false | some f ↦ is_exec (h f).state ]

-- What the search of the queue finds: tickle_me, the job, and the queue without it.
pub record Found : Type 0 where
  pub tickle : Bool
  pub job : Option Job
  pub queue : List Job

-- The search of run for a job, under the lock. A job with no fiber and no callback fails the
-- assertion.
pub pick : (ℕ → Fiber) → ℕ → List Job → Option Found
pick h me [] = some (record { tickle = false; job = none; queue = [] })
pick h me (j ∷ js) =
    let later = pick h me js in
    if is_foreign me j
    then (later >>= λ f. some (record f { tickle = true; queue = j ∷ f.queue }))
    else if not (is_some j.fiber || is_some j.cb)
    then none
    else if is_busy h j
    then (later >>= λ f. some (record f { queue = j ∷ f.queue }))
    else some (record { tickle = not (is_empty js); job = some j; queue = js })

pub record Run : Type 0 where
  pub world : World
  pub queue : List Job
  pub active : ℕ
  pub idle : ℕ
  pub cb_fiber : Option ℕ
  pub tickles : ℕ

-- What a started fiber does: it stops, and jobs have come in.
pub record Burst : Type 0 where
  pub ending : Ending
  pub added : List Job

abbrev pub add_one : ℕ → ℕ
add_one n = (n + 1) % 2 ^ 64

abbrev pub sub_one : ℕ → ℕ
sub_one n = (n + 2 ^ 64 - 1) % 2 ^ 64

-- tickle()
abbrev pub tickle_if : Bool → Run → Run
tickle_if b s = if b then record s { tickles = s.tickles + 1 } else s

-- schedule(fiber)
pub schedule_fiber : ℕ → Run → Run
unfolding schedule_no_lock
schedule_fiber f s =
    let r = schedule_no_lock (record { fiber = some f; cb = none; thread = none }) s.queue in
    tickle_if r.0 (record s { queue = r.1 })

-- swapIn, and what happens until the main fiber goes on. `x` is where GetThis would allocate.
pub burst : ℕ → ℕ → Burst → Run → Option Run
burst x f b s = do
  w ← swap_in f s.world
  w' ← leave b.ending x w
  some (record s { world = w'; queue = s.queue ++ b.added })

abbrev pub is_ready : State → Bool
is_ready ready = true
is_ready _ = false

abbrev pub is_term : State → Bool
is_term term = true
is_term _ = false

abbrev pub is_except : State → Bool
is_except except = true
is_except _ = false

abbrev pub state_of : ℕ → Run → State
state_of f s = (s.world.fibers f).state

abbrev pub hold_fiber : ℕ → Run → Run
hold_fiber f s = record s { world = set_state f hold s.world }

-- What run does with a fiber that has come back.
pub settle : ℕ → Run → Run
settle f s =
    if is_ready (state_of f s)
    then schedule_fiber f s
    else if is_over (state_of f s)
    then s
    else hold_fiber f s

-- The branch of run for a job with a fiber.
pub run_fiber : ℕ → ℕ → Burst → Run → Option Run
run_fiber x f b s = do
  s' ← burst x f b s
  some (settle f (record s' { active = sub_one s'.active }))

-- cb_fiber->reset(ft.cb), or a new fiber at `fresh`.
pub prepare : ℕ → Option ℕ → Run → Option (ℕ × Run)
prepare fresh cb s = elim s.cb_fiber [
  | none ↦ some (fresh, record s { world = make_fiber fresh cb s.world; cb_fiber = some fresh })
  | some c ↦ (reset c cb s.world >>= λ w. some (c, record s { world = w }))
]

-- What run does with the fiber of a callback that has come back.
pub settle_cb : ℕ → Run → Option Run
settle_cb c s =
    if is_ready (state_of c s)
    then some (record (schedule_fiber c s) { cb_fiber = none })
    else if is_over (state_of c s)
    then (reset c none s.world >>= λ w. some (record s { world = w }))
    else some (record (hold_fiber c s) { cb_fiber = none })

-- The branch of run for a job with a callback.
pub run_cb : ℕ → ℕ → Option ℕ → Burst → Run → Option Run
run_cb x fresh cb b s = do
  (c, s1) ← prepare fresh cb s
  s2 ← burst x c b s1
  settle_cb c (record s2 { active = sub_one s2.active })

-- What run does with the fiber of idle once it has come back.
pub settle_idle : ℕ → Run → Run
settle_idle f s = if is_over (state_of f s) then s else hold_fiber f s

-- The branch of run with nothing to do: `false` leaves the loop. A fiber that ended by an exception
-- is started again behind its last swapOut, where MainFunc returns and, without a uc_link, the
-- thread ends.
pub run_idle : ℕ → ℕ → Burst → Run → Option (Bool × Run)
run_idle x idle_fiber b s =
    if is_term (state_of idle_fiber s)
    then some (false, s)
    else if is_except (state_of idle_fiber s)
    then none
    else do
      s' ← burst x idle_fiber b (record s { idle = add_one s.idle })
      let t = record s' { idle = sub_one s'.idle }
      some (true, settle_idle idle_fiber t)

-- What run does with the job that it has taken.
pub run_job : ℕ → ℕ → Job → Burst → Run → Option Run
run_job x fresh j b s =
    let finished = some (record s { active = sub_one s.active }) in
    let otherwise = if is_some j.cb then run_cb x fresh j.cb b s else finished in
    elim j.fiber [
      | none ↦ otherwise
      | some f ↦ if is_over (state_of f s) then otherwise else run_fiber x f b s
    ]

-- One round of the loop of run on the thread `me`: whether it goes on, and the state.
pub round : ℕ → ℕ → ℕ → ℕ → Burst → Run → Option (Bool × Run)
round me idle_fiber x fresh b s = do
  found ← pick s.world.fibers me s.queue
  let t = tickle_if found.tickle (record s { queue = found.queue })
  elim found.job [
    | none ↦ run_idle x idle_fiber b t
    | some j ↦
        (run_job x fresh j b (record t { active = add_one t.active }) >>= λ u. some (true, u))
  ]
