-- ===== src/Scheduler/Bursts.antt =====
-- What Scheduler::run (mingfwq/scheduler.cpp) finds when a fiber that it has started stops.
use mingfwq.Prelude.{
  ℕ, ◌+◌, ◌≡◌, ◌≢◌, refl, sym, ap, ◌∙◌, arith, false, none, some, List, [], ◌∷◌, ◌++◌, ◌==◌,
  if◌then◌else◌, inl, inr, Bool-cases, append-nil,
}
use mingfwq.Fiber.{State, hold, exec, ready, term, except, is_exec, Fiber, World}
use mingfwq.Fiber.Switch.{
  Ending, yields_ready, yields_hold, swaps_out, returns, throws, stopped, after, swap_in_lem,
  leave_lem,
}
use mingfwq.Scheduler.{
  Job, is_empty, Run, Burst, burst, schedule_fiber, schedule_no_lock, hold_fiber, state_of, settle,
}

-- From `w` to `w'` the fiber `f` was started and has stopped; the main fiber goes on.
pub record Ran (f : ℕ) (e : Ending) (w w' : World) : Type 0 where
  pub main : w'.main_fiber ≡ w.main_fiber
  pub current : w'.current ≡ w.current
  pub running : w'.running ≡ w.running
  pub state : (b : ℕ) → (w'.fibers b).state ≡ (if f == b then after e else (w.fibers b).state)
  pub stack : (b : ℕ) → (w'.fibers b).stack ≡ (w.fibers b).stack

stopped_state :
    (e : Ending) (l : ℕ) (f : Fiber)
    → f.state ≡ exec
    → ((stopped e l f).state ≡ after e) × ((stopped e l f).stack ≡ f.stack)
stopped_state yields_ready l f p = (refl, refl)
stopped_state yields_hold l f p = (refl, refl)
stopped_state swaps_out l f p = (p, refl)
stopped_state returns l f p = (refl, refl)
stopped_state throws l f p = (refl, refl)

-- A fiber that is not the main one and does not run can be started, and when it stops the flow
-- that started it goes on.
pub burst_lem :
    (x f m : ℕ) (b : Burst) (s : Run)
    → f ≢ m
    → s.world.main_fiber ≡ some m
    → s.world.current ≡ some m
    → is_exec (state_of f s) ≡ false
    → (w' : World) × (burst x f b s ≡ some (record s { world = w'; queue = s.queue ++ b.added }))
      × Ran f b.ending s.world w'
unfolding burst
burst_lem x f m b s n main cur idle =
    let (u, p, c, r, g, (k, k1, k2, k3)) = swap_in_lem f m s.world n main idle in
    let (v, q, d, t, h, (l, l1, l2, l3)) = leave_lem b.ending x f m u n (k ∙ main) c in
    (
      v,
      rw (p, q) refl,
      record {
        main = l ∙ k;
        current = d ∙ sym cur;
        running = t ∙ ap (λ z. z.flow) (g m) ∙ ground (arith, n);
        state = λ y. elim (Bool-cases (f == y)) [
          | inl z ↦
              let is : (u.fibers y).state ≡ exec = ground (arith, g y, n, z) in
              let end : v.fibers y ≡ stopped b.ending u.running (u.fibers y) = h y ∙ rw z refl in
              ap (λ i. i.state) end
              ∙ (stopped_state b.ending u.running (u.fibers y) is).0
              ∙ ground (arith, z)
          | inr z ↦ ap (λ i. i.state) (h y) ∙ ground (arith, g y, z)
        ];
        stack = λ y. elim (Bool-cases (f == y)) [
          | inl z ↦
              let is : (u.fibers y).state ≡ exec = ground (arith, g y, n, z) in
              let same : (u.fibers y).stack ≡ (s.world.fibers y).stack = ground (arith, g y) in
              let end : v.fibers y ≡ stopped b.ending u.running (u.fibers y) = h y ∙ rw z refl in
              ap (λ i. i.stack) end ∙ (stopped_state b.ending u.running (u.fibers y) is).1 ∙ same
          | inr z ↦ ap (λ i. i.stack) (h y) ∙ ground (arith, g y, z)
        ];
      },
    )

-- The state of a fiber that has stopped, once run is done with it.
abbrev pub settled : Ending → State
settled yields_ready = ready
settled yields_hold = hold
settled swaps_out = hold
settled returns = term
settled throws = except

abbrev pub again : ℕ → Ending → List Job
again f yields_ready = record { fiber = some f; cb = none; thread = none } ∷ []
again f e = []

-- From `s` to `s'` the fiber `f` has got its state, and is queued again if it yielded ready.
pub record Settles (f : ℕ) (e : Ending) (s s' : Run) : Type 0 where
  pub main : s'.world.main_fiber ≡ s.world.main_fiber
  pub current : s'.world.current ≡ s.world.current
  pub running : s'.world.running ≡ s.world.running
  pub state : (y : ℕ) → state_of y s' ≡ (if f == y then settled e else state_of y s)
  pub stack : (y : ℕ) → (s'.world.fibers y).stack ≡ (s.world.fibers y).stack
  pub queue : s'.queue ≡ s.queue ++ again f e
  pub active : s'.active ≡ s.active
  pub idle : s'.idle ≡ s.idle
  pub cb_fiber : s'.cb_fiber ≡ s.cb_fiber

-- A fiber in its final state, at most queued.
Settles-queued :
    (f : ℕ) (e : Ending) (s : Run) (n : ℕ)
    → state_of f s ≡ settled e
    → Settles f e s (record s { queue = s.queue ++ again f e; tickles = n })
Settles-queued f e s n p = record {
  main = refl;
  current = refl;
  running = refl;
  state = λ y. ground (arith, p);
  stack = λ y. refl;
  queue = refl;
  active = refl;
  idle = refl;
  cb_fiber = refl;
}

Settles-same :
    (f : ℕ) (e : Ending) (s : Run) → state_of f s ≡ settled e → again f e ≡ [] → Settles f e s s
Settles-same f e s p q = record {
  main = refl;
  current = refl;
  running = refl;
  state = λ y. ground (arith, p);
  stack = λ y. refl;
  queue = sym (append-nil s.queue) ∙ ap (λ l. s.queue ++ l) (sym q);
  active = refl;
  idle = refl;
  cb_fiber = refl;
}

pub Settles-held :
    (f : ℕ) (e : Ending) (s : Run)
    → hold ≡ settled e
    → again f e ≡ []
    → Settles f e s (hold_fiber f s)
Settles-held f e s p q = record {
  main = refl;
  current = refl;
  running = refl;
  state = λ y. ground (arith, p);
  stack = λ y. ground arith;
  queue = sym (append-nil s.queue) ∙ ap (λ l. s.queue ++ l) (sym q);
  active = refl;
  idle = refl;
  cb_fiber = refl;
}

pub schedule_fiber_lem :
    (f : ℕ) (s : Run) → state_of f s ≡ ready → Settles f yields_ready s (schedule_fiber f s)
unfolding schedule_fiber schedule_no_lock
schedule_fiber_lem f s e = elim (Bool-cases (is_empty s.queue)) [
  | inl z ↦ rw z (Settles-queued f yields_ready s (s.tickles + 1) e)
  | inr z ↦ rw z (Settles-queued f yields_ready s s.tickles e)
]

pub settle_lem :
    (f : ℕ) (e : Ending) (s : Run) → state_of f s ≡ after e → Settles f e s (settle f s)
unfolding settle
settle_lem f yields_ready s p = rw p (schedule_fiber_lem f s p)
settle_lem f yields_hold s p = rw p (Settles-held f yields_hold s refl refl)
settle_lem f swaps_out s p = rw p (Settles-held f swaps_out s refl refl)
settle_lem f returns s p = simp p (Settles-same f returns s p refl)
settle_lem f throws s p = simp p (Settles-same f throws s p refl)
