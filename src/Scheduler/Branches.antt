-- ===== src/Scheduler/Branches.antt =====
-- Two branches of a round of Scheduler::run (mingfwq/scheduler.cpp): a fiber and a callback.
use mingfwq.Prelude.{
  ℕ, ◌<◌, ◌^◌, ◌≡◌, ◌≢◌, refl, sym, ap, ◌∙◌, subst, arith, false, ◌⊎◌, inl, inr, Option, some, ◌++◌,
  ◌==◌, Bool-cases, ==_iff,
}
use mingfwq.Fiber.{is_exec}
use mingfwq.Scheduler.{Run, Burst, state_of, settle, run_fiber, run_cb, add_one, sub_one}
use mingfwq.Scheduler.Pick.{IsJob}
use mingfwq.Scheduler.Bursts.{burst_lem, settle_lem, again}
use mingfwq.Scheduler.Callbacks.{IsSpare, settle_cb_lem, prepare_lem}
use mingfwq.Scheduler.Fit.{
  Avoids, IsFit, Rounds, settled_rests, again-IsJob, again-Avoids, not_same, All-queue, IsAdded,
}

pub run_fiber-Rounds :
    (x f m idle_fiber : ℕ) (b : Burst) (s : Run)
    → IsFit m idle_fiber s
    → IsAdded m b.added
    → f ≢ m
    → is_exec (state_of f s) ≡ false
    → ((c : ℕ) → s.cb_fiber ≡ some c → f ≢ c)
    → s.active < 2 ^ 64
    → (s' : Run) × (run_fiber x f b (record s { active = add_one s.active }) ≡ some s')
      × Rounds m idle_fiber b.added ((s.queue ++ b.added) ++ again f b.ending) s s'
unfolding run_fiber
run_fiber-Rounds x f m idle_fiber b s v (jobs, off) n rests other bound =
    let t = record s { active = add_one s.active } in
    let (w', p, r) = burst_lem x f m b t n v.main v.current rests in
    let u : Run = record t {
      world = w';
      queue = s.queue ++ b.added;
      active = sub_one (add_one s.active);
    } in
    let g = settle_lem f b.ending u (r.state f ∙ ground arith) in
    let state : (y : ℕ) → (f == y) ≡ false → state_of y (settle f u) ≡ state_of y s =
      λ y z. g.state y ∙ rw z (r.state y ∙ rw z refl) in
    let self : is_exec (state_of f (settle f u)) ≡ false =
      ap is_exec (g.state f) ∙ ground (arith, settled_rests b.ending) in
    (
      settle f u,
      rw p refl,
      record {
        queue = g.queue;
        active = g.active ∙ omega (arith, bound);
        idle = g.idle;
        running = g.running ∙ r.running;
        fit = λ keep. record {
          main = g.main ∙ r.main ∙ v.main;
          current = g.current ∙ r.current ∙ v.current;
          jobs = All-queue IsJob s.queue b.added _ _ g.queue v.jobs jobs (again-IsJob f b.ending);
          off_main =
              All-queue _ s.queue b.added _ _ g.queue v.off_main off (again-Avoids f m b.ending n);
          idle_off = v.idle_off;
          idle_rests = elim (Bool-cases (f == idle_fiber)) [
            | inl z ↦
                subst (λ y. is_exec (state_of y (settle f u)) ≡ false) ((==_iff f idle_fiber).0 z)
                  self
            | inr z ↦ ap is_exec (state idle_fiber z) ∙ v.idle_rests
          ];
          spare = λ c e.
              let e' : s.cb_fiber ≡ some c = sym g.cb_fiber ∙ e in
              let (sp, cm, ci, av) = v.spare c e' in
              let z = not_same f c (other c e') in
              (
                (g.stack c ∙ r.stack c ∙ sp.0, rw (state c z) sp.1),
                cm,
                ci,
                All-queue _ s.queue b.added _ _ g.queue av (keep c e)
                    (again-Avoids f c b.ending (other c e')),
              );
        };
      },
    )

pub run_cb-Rounds :
    (x fresh m idle_fiber : ℕ) (cb : Option ℕ) (b : Burst) (s : Run)
    → IsFit m idle_fiber s
    → IsAdded m b.added
    → (fresh ≢ m) × (fresh ≢ idle_fiber) × Avoids fresh s.queue
    → s.active < 2 ^ 64
    → (s' : Run) × (c : ℕ) × (run_cb x fresh cb b (record s { active = add_one s.active })
        ≡ some s')
      × ((s.cb_fiber ≡ some c) ⊎ (c ≡ fresh))
      × Rounds m idle_fiber b.added ((s.queue ++ b.added) ++ again c b.ending) s s'
unfolding run_cb
run_cb-Rounds x fresh m idle_fiber cb b s v (jobs, off) (fm, fi, fq) bound =
    let t = record s { active = add_one s.active } in
    let (c, t1, p, a) = prepare_lem fresh cb t (λ d e. (v.spare d e).0) in
    let chosen : (c ≢ m) × (c ≢ idle_fiber) × Avoids c s.queue = place a.place in
    let (w', q, r) =
      burst_lem x c m b t1 chosen.0 (a.main ∙ v.main) (a.current ∙ v.current)
        (ap is_exec a.begun) in
    let u : Run = record t1 {
      world = w';
      queue = t1.queue ++ b.added;
      active = sub_one t1.active;
    } in
    let (s', l, g) =
      settle_cb_lem c b.ending u a.cb_fiber (r.stack c ∙ a.stack) (r.state c ∙ ground arith) in
    let queue : s'.queue ≡ (s.queue ++ b.added) ++ again c b.ending =
      g.queue ∙ ap (λ k. (k ++ b.added) ++ again c b.ending) a.queue in
    (
      s',
      c,
      rw (p, q) l,
      a.place,
      record {
        queue = queue;
        active = g.active ∙ ap sub_one a.active ∙ omega (arith, bound);
        idle = g.idle ∙ a.idle;
        running = g.running ∙ r.running ∙ a.running;
        fit = λ keep. record {
          main = g.main ∙ r.main ∙ a.main ∙ v.main;
          current = g.current ∙ r.current ∙ a.current ∙ v.current;
          jobs = All-queue IsJob s.queue b.added _ _ queue v.jobs jobs (again-IsJob c b.ending);
          off_main =
              All-queue _ s.queue b.added _ _ queue v.off_main off
                (again-Avoids c m b.ending chosen.0);
          idle_off = v.idle_off;
          idle_rests =
              let z = not_same c idle_fiber chosen.1 in
              ap is_exec (g.others idle_fiber z ∙ r.state idle_fiber ∙ rw z (a.others idle_fiber z))
              ∙ v.idle_rests;
          spare = λ d e.
              let (same, none_again, sp) = g.spare d e in
              (
                subst (λ y. IsSpare y s') (sym same) sp,
                (λ k. chosen.0 (sym same ∙ k)),
                (λ k. chosen.1 (sym same ∙ k)),
                All-queue _ s.queue b.added _ _ queue
                    (subst (λ y. Avoids y s.queue) (sym same) chosen.2) (keep d e)
                    (subst (Avoids d) (sym none_again) tt),
              );
        };
      },
    )
  where
    place :
        {c : ℕ}
        → (s.cb_fiber ≡ some c) ⊎ (c ≡ fresh)
        → (c ≢ m) × (c ≢ idle_fiber) × Avoids c s.queue
    place (inl e) = let (sp, cm, ci, av) = v.spare _ e in (cm, ci, av)
    place (inr e) = subst (λ y. (y ≢ m) × (y ≢ idle_fiber) × Avoids y s.queue) (sym e) (fm, fi, fq)
