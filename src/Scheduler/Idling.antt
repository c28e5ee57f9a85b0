-- ===== src/Scheduler/Idling.antt =====
-- The branch of a round of Scheduler::run (mingfwq/scheduler.cpp) that has nothing to do.
use mingfwq.Prelude.{
  ℕ, ◌<◌, ◌^◌, ◌≡◌, refl, sym, ◌∙◌, subst, arith, Bool, true, false, not, if◌then◌else◌, inl, inr,
  some, ◌++◌, ◌==◌, All, All-append, Bool-cases,
}
use mingfwq.Fiber.{State, init, hold, exec, ready, term, except, is_exec, is_over}
use mingfwq.Scheduler.{
  Run, Burst, state_of, run_idle, add_one, sub_one, is_term, is_except, settle_idle,
}
use mingfwq.Scheduler.Pick.{IsJob}
use mingfwq.Scheduler.Bursts.{burst_lem}
use mingfwq.Scheduler.Fit.{Avoids, IsFit, Rounds, not_same, IsAdded}

-- The fiber of idle does not run, and nothing else has changed.
record IdleSettles (f : ℕ) (s s' : Run) : Type 0 where
  main : s'.world.main_fiber ≡ s.world.main_fiber
  current : s'.world.current ≡ s.world.current
  running : s'.world.running ≡ s.world.running
  rests : is_exec (state_of f s') ≡ false
  others : (y : ℕ) → (f == y) ≡ false → state_of y s' ≡ state_of y s
  stack : (y : ℕ) → (s'.world.fibers y).stack ≡ (s.world.fibers y).stack
  queue : s'.queue ≡ s.queue
  active : s'.active ≡ s.active
  idle : s'.idle ≡ s.idle
  cb_fiber : s'.cb_fiber ≡ s.cb_fiber

over_rests : (s : State) → is_over s ≡ true → is_exec s ≡ false
over_rests init e = refl
over_rests hold e = refl
over_rests exec e = cc e
over_rests term e = refl
over_rests ready e = refl
over_rests except e = refl

settle_idle_lem : (f : ℕ) (s : Run) → IdleSettles f s (settle_idle f s)
unfolding settle_idle
settle_idle_lem f s = elim (Bool-cases (is_over (state_of f s))) [
  | inl e ↦ rw e (record {
    main = refl;
    current = refl;
    running = refl;
    rests = over_rests (state_of f s) e;
    others = λ y z. refl;
    stack = λ y. refl;
    queue = refl;
    active = refl;
    idle = refl;
    cb_fiber = refl;
  })
  | inr e ↦ rw e (record {
    main = refl;
    current = refl;
    running = refl;
    rests = ground arith;
    others = λ y z. ground (arith, z);
    stack = λ y. ground arith;
    queue = refl;
    active = refl;
    idle = refl;
    cb_fiber = refl;
  })
]

pub run_idle-Rounds :
    (x m idle_fiber : ℕ) (b : Burst) (s : Run)
    → IsFit m idle_fiber s
    → IsAdded m b.added
    → s.idle < 2 ^ 64
    → is_except (state_of idle_fiber s) ≡ false
    → (go : Bool) × (s' : Run) × (run_idle x idle_fiber b s ≡ some (go, s'))
      × (go ≡ not (is_term (state_of idle_fiber s)))
      × Rounds m idle_fiber b.added (if go then s.queue ++ b.added else s.queue) s s'
unfolding run_idle
run_idle-Rounds x m idle_fiber b s v (jobs, off) bound whole =
    elim (Bool-cases (is_term (state_of idle_fiber s))) [
      | inl e ↦ (
        false,
        s,
        rw e refl,
        rw e refl,
        record { queue = refl; active = refl; idle = refl; running = refl; fit = λ keep. v },
      )
      | inr e ↦
          let t = record s { idle = add_one s.idle } in
          let (w', p, r) = burst_lem x idle_fiber m b t v.idle_off v.main v.current v.idle_rests in
          let u : Run = record t {
            world = w';
            queue = s.queue ++ b.added;
            idle = sub_one (add_one s.idle);
          } in
          let g = settle_idle_lem idle_fiber u in
          (
            true,
            settle_idle idle_fiber u,
            rw (e, whole, p) refl,
            rw e refl,
            record {
              queue = g.queue;
              active = g.active;
              idle = g.idle ∙ omega (arith, bound);
              running = g.running ∙ r.running;
              fit = λ keep. record {
                main = g.main ∙ r.main ∙ v.main;
                current = g.current ∙ r.current ∙ v.current;
                jobs =
                    subst (All IsJob) (sym g.queue) (All-append IsJob s.queue b.added v.jobs jobs);
                off_main =
                    subst (Avoids m) (sym g.queue) (All-append _ s.queue b.added v.off_main off);
                idle_off = v.idle_off;
                idle_rests = g.rests;
                spare = λ c k.
                    let e' : s.cb_fiber ≡ some c = sym g.cb_fiber ∙ k in
                    let (sp, cm, ci, av) = v.spare c e' in
                    let z = not_same idle_fiber c (λ q. ci (sym q)) in
                    let same : state_of c (settle_idle idle_fiber u) ≡ state_of c s =
                      g.others c z ∙ r.state c ∙ rw z refl in
                    (
                      (g.stack c ∙ r.stack c ∙ sp.0, rw same sp.1),
                      cm,
                      ci,
                      subst (Avoids c) (sym g.queue) (All-append _ s.queue b.added av (keep c k)),
                    );
              };
            },
          )
    ]
