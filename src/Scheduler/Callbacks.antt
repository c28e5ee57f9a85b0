-- ===== src/Scheduler/Callbacks.antt =====
-- The fiber that Scheduler::run (mingfwq/scheduler.cpp) keeps for callbacks.
use mingfwq.Prelude.{
  ℕ, ◌≡◌, refl, sym, ap, ◌∙◌, arith, true, false, ◌||◌, ◌⊎◌, inl, inr, Option, none, some, [], ◌++◌,
  ◌==◌, Option-cases, append-nil,
}
use mathlib.Core.Option.{some-injective}
use mingfwq.Fiber.{init, is_exec, is_over, is_init, make_fiber, reset}
use mingfwq.Fiber.Switch.{
  Ending, yields_ready, yields_hold, swaps_out, returns, throws, after, reset_lem, make_fiber_lem,
}
use mingfwq.Scheduler.{Run, schedule_fiber, hold_fiber, state_of, settle_cb, prepare, ◌>>=◌}
use mingfwq.Scheduler.Bursts.{Settles, again, settled, schedule_fiber_lem, Settles-held}

-- A fiber that can be reset.
abbrev pub IsSpare : ℕ → Run → Type 0
IsSpare c s =
    ((s.world.fibers c).stack ≡ true) × ((is_over (state_of c s) || is_init (state_of c s)) ≡ true)

-- What settle_cb leaves: the fiber does not run, and if it is kept for callbacks it can be reset.
pub record SettlesCb (c : ℕ) (e : Ending) (s s' : Run) : Type 0 where
  pub main : s'.world.main_fiber ≡ s.world.main_fiber
  pub current : s'.world.current ≡ s.world.current
  pub running : s'.world.running ≡ s.world.running
  pub rests : is_exec (state_of c s') ≡ false
  pub others : (y : ℕ) → (c == y) ≡ false → state_of y s' ≡ state_of y s
  pub stack : (y : ℕ) → (s'.world.fibers y).stack ≡ (s.world.fibers y).stack
  pub queue : s'.queue ≡ s.queue ++ again c e
  pub active : s'.active ≡ s.active
  pub idle : s'.idle ≡ s.idle
  pub spare : (d : ℕ) → s'.cb_fiber ≡ some d → (d ≡ c) × (again c e ≡ []) × IsSpare c s'

dropped :
    (c : ℕ) (e : Ending) (s u : Run)
    → Settles c e s u
    → is_exec (settled e) ≡ false
    → SettlesCb c e s (record u { cb_fiber = none })
dropped c e s u t r = record {
  main = t.main;
  current = t.current;
  running = t.running;
  rests = ground (arith, t.state c, r);
  others = λ y z. t.state y ∙ rw z refl;
  stack = t.stack;
  queue = t.queue;
  active = t.active;
  idle = t.idle;
  spare = λ d z. cc z;
}

kept :
    (c : ℕ) (e : Ending) (s : Run)
    → s.cb_fiber ≡ some c
    → (s.world.fibers c).stack ≡ true
    → is_over (state_of c s) ≡ true
    → again c e ≡ []
    → (s' : Run) × ((reset c none s.world >>= λ w. some (record s { world = w })) ≡ some s')
      × SettlesCb c e s s'
kept c e s k st o none_again =
    let (w', p, main, cur, run, state, stack) = reset_lem c none s.world st (ground (arith, o)) in
    let begun : (w'.fibers c).state ≡ init = ground (arith, state c) in
    (
      record s { world = w' },
      rw p refl,
      record {
        main = main;
        current = cur;
        running = run;
        rests = rw begun refl;
        others = λ y z. state y ∙ rw z refl;
        stack = stack;
        queue = sym (append-nil s.queue) ∙ ap (λ l. s.queue ++ l) (sym none_again);
        active = refl;
        idle = refl;
        spare = λ d z. (some-injective _ _ (sym z ∙ k), none_again, (stack c ∙ st, rw begun refl));
      },
    )

pub settle_cb_lem :
    (c : ℕ) (e : Ending) (s : Run)
    → s.cb_fiber ≡ some c
    → (s.world.fibers c).stack ≡ true
    → state_of c s ≡ after e
    → (s' : Run) × (settle_cb c s ≡ some s') × SettlesCb c e s s'
unfolding settle_cb
settle_cb_lem c yields_ready s k st p = (
  record (schedule_fiber c s) { cb_fiber = none },
  rw p refl,
  dropped c yields_ready s (schedule_fiber c s) (schedule_fiber_lem c s p) refl,
)
settle_cb_lem c yields_hold s k st p = (
  record (hold_fiber c s) { cb_fiber = none },
  simp p,
  dropped c yields_hold s (hold_fiber c s) (Settles-held c yields_hold s refl refl) refl,
)
settle_cb_lem c swaps_out s k st p = (
  record (hold_fiber c s) { cb_fiber = none },
  simp p,
  dropped c swaps_out s (hold_fiber c s) (Settles-held c swaps_out s refl refl) refl,
)
settle_cb_lem c returns s k st p =
    let (s', q, r) = kept c returns s k st (rw p refl) refl in (s', ground (arith, p, q), r)
settle_cb_lem c throws s k st p =
    let (s', q, r) = kept c throws s k st (rw p refl) refl in (s', ground (arith, p, q), r)

-- What prepare leaves: a fiber that begins with the callback, at `fresh` or the one kept.
pub record Prepared (fresh c : ℕ) (s s' : Run) : Type 0 where
  pub place : (s.cb_fiber ≡ some c) ⊎ (c ≡ fresh)
  pub main : s'.world.main_fiber ≡ s.world.main_fiber
  pub current : s'.world.current ≡ s.world.current
  pub running : s'.world.running ≡ s.world.running
  pub begun : state_of c s' ≡ init
  pub stack : (s'.world.fibers c).stack ≡ true
  pub others : (y : ℕ) → (c == y) ≡ false → state_of y s' ≡ state_of y s
  pub queue : s'.queue ≡ s.queue
  pub active : s'.active ≡ s.active
  pub idle : s'.idle ≡ s.idle
  pub cb_fiber : s'.cb_fiber ≡ some c

prepare_fresh :
    (fresh : ℕ) (cb : Option ℕ) (s : Run)
    → Prepared fresh fresh s
        (record s { world = make_fiber fresh cb s.world; cb_fiber = some fresh })
prepare_fresh fresh cb s =
    let (st, sk, others, main, cur, run) = make_fiber_lem fresh cb s.world in
    record {
      place = inr refl;
      main = main;
      current = cur;
      running = run;
      begun = st;
      stack = sk;
      others = others;
      queue = refl;
      active = refl;
      idle = refl;
      cb_fiber = refl;
    }

pub prepare_lem :
    (fresh : ℕ) (cb : Option ℕ) (s : Run)
    → ((c : ℕ) → s.cb_fiber ≡ some c → IsSpare c s)
    → (c : ℕ) × (s' : Run) × (prepare fresh cb s ≡ some (c, s')) × Prepared fresh c s s'
unfolding prepare
prepare_lem fresh cb s spare = elim (Option-cases s.cb_fiber) [
  | inl e ↦ (
    fresh,
    record s { world = make_fiber fresh cb s.world; cb_fiber = some fresh },
    ground (arith, e),
    prepare_fresh fresh cb s,
  )
  | inr (c, e) ↦
      let (st, o) = spare c e in
      let (w', p, main, cur, run, state, stack) = reset_lem c cb s.world st o in
      (
        c,
        record s { world = w' },
        ground (arith, e, p),
        record {
          place = inl e;
          main = main;
          current = cur;
          running = run;
          begun = state c ∙ ground arith;
          stack = stack c ∙ st;
          others = λ y z. state y ∙ rw z refl;
          queue = refl;
          active = refl;
          idle = refl;
          cb_fiber = e;
        },
      )
]
