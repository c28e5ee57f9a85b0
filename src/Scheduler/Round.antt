-- ===== src/Scheduler/Round.antt =====
-- A round of the loop of Scheduler::run (mingfwq/scheduler.cpp).
use mingfwq.Prelude.{
  not, ℕ, ◌<◌, ◌^◌, ◌≡◌, ◌≢◌, refl, sym, ap, ◌∙◌, subst, arith, Bool, true, false, inl, inr, some,
  List, [], ◌∷◌, ◌++◌, All, Bool-cases, Option-cases,
}
use mingfwq.Fiber.{is_over}
use mingfwq.Scheduler.{
  Job, Found, Run, Burst, pick, tickle_if, state_of, run_job, round, add_one, sub_one, is_term,
  is_except, is_some, is_busy, ◌>>=◌,
}
use mingfwq.Scheduler.Pick.{IsJob, FirstFit, hit, miss, pick-FirstFit}
use mingfwq.Scheduler.Passes.{Runs, resumed, called, over, Passes, takes, Passes-idle}
use mingfwq.Scheduler.Fit.{Avoids, IsFit, Rounds, IsAdded}
use mingfwq.Scheduler.Branches.{run_fiber-Rounds, run_cb-Rounds}
use mingfwq.Scheduler.Idling.{run_idle-Rounds}

-- Fields that waking up another thread leaves alone.
tickle_if-IsFit :
    (m idle_fiber : ℕ) (b : Bool) (s : Run) (queue : List Job)
    → IsFit m idle_fiber s
    → ((P : Job → Type 0) → All P s.queue → All P queue)
    → IsFit m idle_fiber (tickle_if b (record s { queue = queue }))
tickle_if-IsFit m idle_fiber b s queue v sub = go b
  where
    go : (b : Bool) → IsFit m idle_fiber (tickle_if b (record s { queue = queue }))
    go true = record {
      main = v.main;
      current = v.current;
      jobs = sub IsJob v.jobs;
      off_main = sub _ v.off_main;
      idle_off = v.idle_off;
      idle_rests = v.idle_rests;
      spare = λ c e. let (sp, cm, ci, av) = v.spare c e in (sp, cm, ci, sub _ av);
    }
    go false = record {
      main = v.main;
      current = v.current;
      jobs = sub IsJob v.jobs;
      off_main = sub _ v.off_main;
      idle_off = v.idle_off;
      idle_rests = v.idle_rests;
      spare = λ c e. let (sp, cm, ci, av) = v.spare c e in (sp, cm, ci, sub _ av);
    }

tickle_if_lem :
    (b : Bool) (s : Run)
    → ((tickle_if b s).active ≡ s.active)
      × ((tickle_if b s).idle ≡ s.idle)
      × ((tickle_if b s).world ≡ s.world)
      × ((tickle_if b s).queue ≡ s.queue)
      × ((tickle_if b s).cb_fiber ≡ s.cb_fiber)
tickle_if_lem true s = (refl, refl, refl, refl, refl)
tickle_if_lem false s = (refl, refl, refl, refl, refl)

All-without :
    (P : Job → Type 0) (before after : List Job) (j : Job)
    → All P (before ++ j ∷ after)
    → P j × All P (before ++ after)
All-without P [] after j p = p
All-without P (i ∷ before) after j (q, p) =
    let (r, s) = All-without P before after j p in (r, (q, s))

module _ (x fresh m idle_fiber : ℕ) (b : Burst) (s : Run) (v : IsFit m idle_fiber s)
    (added : IsAdded m b.added) (place : (fresh ≢ m) × (fresh ≢ idle_fiber) × Avoids fresh s.queue)
    (bound : s.active < 2 ^ 64) where
  -- A job that is not of a running fiber, of the main one or of the one kept for callbacks.
  run_job-Rounds :
      (j : Job)
      → IsJob j
      → j.fiber ≢ some m
      → ((c : ℕ) → s.cb_fiber ≡ some c → j.fiber ≢ some c)
      → is_busy s.world.fibers j ≡ false
      → (s' : Run) × (after : List Job) × (run_job x fresh j b
            (record s { active = add_one s.active })
          ≡ some s')
        × Rounds m idle_fiber b.added after s s'
        × Runs s.world.fibers s.cb_fiber fresh b j s.queue after
  unfolding run_job
  run_job-Rounds j job off spare rests = elim (Option-cases j.fiber) [
    | inl e ↦
        let (s', c, p, a, r) = run_cb-Rounds x fresh m idle_fiber j.cb b s v added place bound in
        (s', _, ground (arith, e, job, p), r, called c (inl e) (ground (arith, e, job)) a)
    | inr (f, e) ↦ elim (Bool-cases (is_over (state_of f s))) [
      | inr l ↦
          let (s', p, r) =
            run_fiber-Rounds x f m idle_fiber b s v added (λ q. off (e ∙ ap some q))
              (ground (arith, e, rests)) (λ c k q. spare c k (e ∙ ap some q)) bound in
          (s', _, ground (arith, e, l, p), r, resumed f e l)
      | inl l ↦ elim (Bool-cases (is_some j.cb)) [
        | inl k ↦
            let (s', c, p, a, r) =
              run_cb-Rounds x fresh m idle_fiber j.cb b s v added place bound in
            (s', _, ground (arith, e, l, k, p), r, called c (inr (f, e, l)) k a)
        | inr k ↦ (
          record s { active = sub_one (add_one s.active) },
          _,
          ground (arith, e, l, k),
          record {
            queue = refl;
            active = omega (arith, bound);
            idle = refl;
            running = refl;
            fit = λ keep. record {
              main = v.main;
              current = v.current;
              jobs = v.jobs;
              off_main = v.off_main;
              idle_off = v.idle_off;
              idle_rests = v.idle_rests;
              spare = v.spare;
            };
          },
          over f e l k,
        )
      ]
    ]
  ]

-- From `t`, in which the queue has been searched, to `s'` is from `s` to `s'`.
Rounds-from :
    (m idle_fiber : ℕ) (added after : List Job) (c : Bool) (s s' : Run) (queue : List Job)
    → Rounds m idle_fiber added after (tickle_if c (record s { queue = queue })) s'
    → Rounds m idle_fiber added after s s'
Rounds-from m idle_fiber added after true s s' queue r = record {
  queue = r.queue;
  active = r.active;
  idle = r.idle;
  running = r.running;
  fit = r.fit;
}
Rounds-from m idle_fiber added after false s s' queue r = record {
  queue = r.queue;
  active = r.active;
  idle = r.idle;
  running = r.running;
  fit = r.fit;
}

Runs-alike :
    (fresh : ℕ) (b : Burst) (j : Job) (after : List Job) (c : Bool) (s : Run)
    (found queue : List Job)
    → found ≡ queue
    → (let t = tickle_if c (record s { queue = found }) in
        Runs t.world.fibers t.cb_fiber fresh b j t.queue after)
    → Runs s.world.fibers s.cb_fiber fresh b j queue after
Runs-alike fresh b j after true s found queue e r =
    subst (λ q. Runs s.world.fibers s.cb_fiber fresh b j q after) e r
Runs-alike fresh b j after false s found queue e r =
    subst (λ q. Runs s.world.fibers s.cb_fiber fresh b j q after) e r

-- A round of run on a fit state, in which the fiber of idle has not ended by an exception, fails
-- no assertion, whatever the fiber that it starts does. The queue keeps its jobs in order, but for
-- the one that the round takes, the first that is not for another thread and not of a running
-- fiber; behind them come the jobs that came in meanwhile, and the fiber that was started if it
-- yielded ready. Where every job is passed over, the idle fiber is started, or the loop is left if
-- that fiber is over. The counts of active and idle threads are what they were, the flow of run
-- goes on, and the state is fit again if no job that came in is of the fiber kept for callbacks.
-- The jobs that come in have a fiber or a callback and are not the main fiber's, and the address
-- of a new fiber is a free one.
pub round-Rounds :
    (me m idle_fiber x fresh : ℕ) (b : Burst) (s : Run)
    → IsFit m idle_fiber s
    → IsAdded m b.added
    → (fresh ≢ m) × (fresh ≢ idle_fiber) × Avoids fresh s.queue
    → (s.active < 2 ^ 64) × (s.idle < 2 ^ 64)
    → is_except (state_of idle_fiber s) ≡ false
    → (go : Bool) × (s' : Run) × (after : List Job) × (round me idle_fiber x fresh b s
        ≡ some (go, s'))
      × Rounds m idle_fiber b.added after s s'
      × Passes me idle_fiber fresh b s after go
unfolding round
round-Rounds me m idle_fiber x fresh b s v added (fm, fi, fq) (active, idle) whole =
    let (f, p, fit) = pick-FirstFit s.world.fibers me s.queue v.jobs in search_result f p fit
  where
    search_result :
        (f : Found)
        → pick s.world.fibers me s.queue ≡ some f
        → FirstFit s.world.fibers me s.queue f
        → (go : Bool) × (s' : Run) × (after : List Job) × (round me idle_fiber x fresh b s
            ≡ some (go, s'))
          × Rounds m idle_fiber b.added after s s'
          × Passes me idle_fiber fresh b s after go
    search_result f p (miss skipped job queue tickle) =
        let t = tickle_if f.tickle (record s { queue = f.queue }) in
        let (ta, ti, tw, tq, tc) = tickle_if_lem f.tickle (record s { queue = f.queue }) in
        let same : t.queue ≡ s.queue = tq ∙ queue in
        let alike : state_of idle_fiber t ≡ state_of idle_fiber s =
          ap (λ w. (w.fibers idle_fiber).state) tw in
        let (go, s', q, g, r) =
          run_idle-Rounds x m idle_fiber b t
            (tickle_if-IsFit m idle_fiber f.tickle s f.queue v (λ P a. subst (All P) (sym queue) a))
            added (omega (arith, ti, idle)) (ap is_except alike ∙ whole) in
        (
          go,
          s',
          _,
          rw (p, job) q,
          Rounds-from m idle_fiber b.added _ f.tickle s s' f.queue r,
          Passes-idle me idle_fiber fresh b s t go same skipped
              (g ∙ ap (λ i. not (is_term i)) alike),
        )
    search_result f p (hit before later j e skipped own rests job queue tickle) =
        let t = tickle_if f.tickle (record s { queue = f.queue }) in
        let (ta, ti, tw, tq, tc) = tickle_if_lem f.tickle (record s { queue = f.queue }) in
        let parts : (P : Job → Type 0) → All P s.queue → P j × All P f.queue = λ P a.
          let (one, more) = All-without P before later j (subst (All P) e a) in
          (one, subst (All P) (sym queue) more) in
        let w = tickle_if-IsFit m idle_fiber f.tickle s f.queue v (λ P a. (parts P a).1) in
        let (s', after, q, r, runs) =
          run_job-Rounds x fresh m idle_fiber b t w added
            (fm, fi, subst (Avoids fresh) (sym tq) (parts _ fq).1) (omega (arith, ta, active)) j
            (parts IsJob v.jobs).0 (parts _ v.off_main).0
            (λ c k. (parts _ ((v.spare c (sym tc ∙ k)).3)).0)
            (ap (λ w. is_busy w.fibers j) tw ∙ rests) in
        (
          true,
          s',
          after,
          rw (p, job) (ap (λ o. o >>= λ u. some (true, u)) q),
          Rounds-from m idle_fiber b.added after f.tickle s s' f.queue r,
          takes before later j e skipped own rests
              (Runs-alike fresh b j after f.tickle s f.queue (before ++ later) queue runs),
        )
