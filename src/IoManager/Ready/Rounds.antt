-- ===== src/IoManager/Ready/Rounds.antt =====
-- cancelAll and one round of idle of mingfwq/iomanager.cpp, whatever epoll_ctl answers.
use mingfwq.Prelude.{
  ℕ, ◌+◌, ◌≡◌, refl, ap, ◌∙◌, arith, Bool, true, false, not, ◌&&◌, ◌||◌, inl, inr, Option, none,
  some, List, [], ◌∷◌, ◌++◌, if◌then◌else◌, length, get_elem?, set, Bool-cases, Option-cases,
}
use mingfwq.IoManager.{
  read_event, write_event, Mask, Op, op_mod, op_del, no_bits, is_any, FdContext, Task, IoManager,
  trigger_event,
}
use mingfwq.IoManager.Ready.{
  Report, real_events, left_events, cancel_all, dispatch, trigger_both, trigger_if,
}
use mingfwq.IoManager.Invariant.{
  bit, registered, IsValid, IsConsistent, All-get_elem?, trigger_event-IsConsistent,
}
use mingfwq.IoManager.Ready.Steps.{Triggers, same_state, tasks_for, both-Triggers}

-- A context without events counts for none.
cleared :
    (a b : Bool) (c : FdContext)
    → c.events.reading ≡ (a && not a)
    → c.events.writing ≡ (b && not b)
    → registered c ≡ 0
cleared a b c p q = ground (arith, p, q)

-- What cancelAll answers and queues: nothing for a descriptor that has no context, and for one
-- that has, each task that waits there, if an event is registered and epoll_ctl grants it.
abbrev pub CancelsAll :
    {Kernel : Type 0}
    → (Kernel → Op → ℕ → Mask → Bool × Kernel)
    → ℕ
    → IoManager Kernel
    → Bool
    → List Task
    → Option FdContext
    → Type 0
CancelsAll epoll_ctl fd m b ts none = (b ≡ false) × (ts ≡ [])
CancelsAll epoll_ctl fd m b ts (some c) =
    (b ≡ (is_any c.events && (epoll_ctl m.kernel op_del fd no_bits).0))
    × (ts ≡ (if b then tasks_for c.events.reading c.events.writing c else []))
    × (length ts ≡ (if b then registered c else 0))

-- cancelAll of a valid manager meets no failed assertion and keeps the manager valid. For a
-- descriptor in the table it answers whether an event was registered and epoll_ctl took the
-- descriptor off. Where it does, it queues the callback or the fiber that waits to read and then the
-- one that waits to write, as far as they are registered, each for the scheduler it is registered
-- with, and as many events fewer are pending; otherwise it queues none, and for a descriptor beyond
-- the table it answers false.
pub cancel_all-Triggers :
    {Kernel : Type 0} (epoll_ctl : Kernel → Op → ℕ → Mask → Bool × Kernel) (fd : ℕ)
    (m : IoManager Kernel)
    → IsValid m
    → (b : Bool) × (m' : IoManager Kernel) × (ts : List Task) × (cancel_all epoll_ctl fd m
        ≡ some (b, m'))
      × Triggers m m' ts
      × CancelsAll epoll_ctl fd m b ts (get_elem? m.contexts fd)
unfolding cancel_all
cancel_all-Triggers epoll_ctl fd m v = elim (Option-cases (get_elem? m.contexts fd)) [
  | inl f ↦ (false, m, [], rw (cancel_all, f) refl, same_state m m.kernel v, rw f (refl, refl))
  | inr (c, f) ↦ elim (Bool-cases (is_any c.events)) [
    | inr g ↦ (
      false,
      m,
      [],
      rw (cancel_all, f, g) refl,
      same_state m m.kernel v,
      rw (f, g) (refl, refl, refl),
    )
    | inl g ↦
        let r = epoll_ctl m.kernel op_del fd no_bits in
        elim (Bool-cases r.0) [
          | inr h ↦ (
            false,
            record m { kernel = r.1 },
            [],
            rw (cancel_all, f, g, h) refl,
            same_state m r.1 v,
            rw (f, g, h) (refl, refl, refl),
          )
          | inl h ↦
              let (c', ts, n, q, w, er, ew, l, is) =
                both-Triggers m r.1 fd c c.events.reading c.events.writing v f (λ e. e) (λ e. e) in
              let nothing : is_any c'.events ≡ false = ground (arith, er, ew) in
              (
                true,
                record m {
                  kernel = r.1;
                  contexts = set m.contexts fd c';
                  queue = m.queue ++ ts;
                  pending = n;
                },
                ts,
                rw (cancel_all, f, g, h, q, nothing) refl,
                w,
                rw (f, g, h) (refl, is, omega (arith, l, cleared _ _ c' er ew)),
              )
        ]
  ]
]

-- What epoll_ctl answers to the change of idle.
abbrev pub asks :
    {Kernel : Type 0}
    → (Kernel → Op → ℕ → Mask → Bool × Kernel)
    → ℕ
    → Report
    → IoManager Kernel
    → FdContext
    → Bool
asks epoll_ctl fd report m c =
    let left = left_events c.events (real_events report) in
    (epoll_ctl m.kernel (if is_any left then op_mod else op_del) fd left).0

tasks_of :
    (a b : Bool) (c c' : FdContext) (n : ℕ)
    → (a ≡ true → c.events.reading ≡ true)
    → (b ≡ true → c.events.writing ≡ true)
    → c'.events.reading ≡ (c.events.reading && not a)
    → c'.events.writing ≡ (c.events.writing && not b)
    → registered c' + n ≡ registered c
    → n ≡ bit a + bit b
tasks_of a b c c' n ha hb r w s = ground (arith, ha, hb, r, w, s)

none_reported :
    (a b : Bool) (c : FdContext)
    → (a ≡ true → c.events.reading ≡ true)
    → (b ≡ true → c.events.writing ≡ true)
    → ((c.events.reading && a) || (c.events.writing && b)) ≡ false
    → 0 ≡ bit a + bit b
none_reported a b c ha hb e = ground (arith, ha, hb, e)

-- A round of idle on the context of a valid manager keeps it valid and meets no failed
-- assertion, where each reported event, with both for an error or a hangup, is registered. It
-- queues one task for each of them where epoll_ctl took the change of what is waited for, none
-- otherwise, and as many events fewer are pending.
pub dispatch-Triggers :
    {Kernel : Type 0} (epoll_ctl : Kernel → Op → ℕ → Mask → Bool × Kernel) (fd : ℕ)
    (report : Report) (m : IoManager Kernel) (c : FdContext)
    → IsValid m
    → get_elem? m.contexts fd ≡ some c
    → ((real_events report).reading ≡ true → c.events.reading ≡ true)
    → ((real_events report).writing ≡ true → c.events.writing ≡ true)
    → (m' : IoManager Kernel) × (ts : List Task) × (dispatch epoll_ctl fd report m ≡ some m')
      × Triggers m m' ts
      × (length ts ≡ (
          if asks epoll_ctl fd report m c
          then bit (real_events report).reading + bit (real_events report).writing
          else 0))
unfolding dispatch
dispatch-Triggers epoll_ctl fd report m c v f hr hw =
    let real = real_events report in
    let left = left_events c.events real in
    let r = epoll_ctl m.kernel (if is_any left then op_mod else op_del) fd left in
    elim (Bool-cases r.0) [
      | inr h ↦
          elim (Bool-cases
            ((c.events.reading && real.reading) || (c.events.writing && real.writing))) [
              | inr g ↦ (m, [], rw (dispatch, f, g) refl, same_state m m.kernel v, rw h refl)
              | inl g ↦ (
                record m { kernel = r.1 },
                [],
                rw (dispatch, f, g, h) refl,
                same_state m r.1 v,
                rw h refl,
              )
            ]
      | inl h ↦
          elim (Bool-cases
            ((c.events.reading && real.reading) || (c.events.writing && real.writing))) [
              | inr g ↦ (
                m,
                [],
                rw (dispatch, f, g) refl,
                same_state m m.kernel v,
                rw h (none_reported real.reading real.writing c hr hw g),
              )
              | inl g ↦
                  let (c', ts, n, q, w, er, ew, l, is) =
                    both-Triggers m r.1 fd c real.reading real.writing v f hr hw in
                  (
                    record m {
                      kernel = r.1;
                      contexts = set m.contexts fd c';
                      queue = m.queue ++ ts;
                      pending = n;
                    },
                    ts,
                    rw (dispatch, f, g, h, q) refl,
                    w,
                    rw h (tasks_of real.reading real.writing c c' (length ts) hr hw er ew l),
                  )
            ]
    ]

or_true : (b : Bool) → (b || true) ≡ true
or_true b = ground arith

trigger_event_unregistered :
    (c : FdContext) (queue : List Task)
    → c.events.writing ≡ false
    → trigger_event write_event c queue ≡ none
unfolding trigger_event
trigger_event_unregistered c queue e = rw e refl

-- With reading alone registered, the WRITE part fails the assertion of triggerEvent.
trigger_both_fails :
    (c : FdContext) (queue : List Task) (pending : ℕ)
    → IsConsistent c
    → c.events.reading ≡ true
    → c.events.writing ≡ false
    → trigger_both true true (c, queue, pending) ≡ none
unfolding trigger_both trigger_if
trigger_both_fails c queue pending p r w =
    let (c', t, q, p', events, is, other) = trigger_event-IsConsistent read_event c queue p r in
    let still : c'.events.writing ≡ false = ap (λ m. m.writing) events ∙ w in
    rw (trigger_both, trigger_if, q, trigger_event_unregistered c' (queue ++ t ∷ []) still) refl

-- On the context of a valid manager that waits for reading alone, a round of idle for an error or
-- a hangup fails the assertion of triggerEvent, once epoll_ctl has succeeded.
pub dispatch_hangup :
    {Kernel : Type 0} (epoll_ctl : Kernel → Op → ℕ → Mask → Bool × Kernel) (fd : ℕ)
    (report : Report) (m : IoManager Kernel) (c : FdContext)
    → IsValid m
    → get_elem? m.contexts fd ≡ some c
    → report.broken ≡ true
    → c.events.reading ≡ true
    → c.events.writing ≡ false
    → (epoll_ctl m.kernel op_del fd no_bits).0 ≡ true
    → dispatch epoll_ctl fd report m ≡ none
unfolding dispatch
dispatch_hangup epoll_ctl fd report m c v f broken r w h =
    let consistent = All-get_elem? m.contexts fd c v.consistent f in
    rw
      (
        dispatch,
        f,
        broken,
        or_true report.readable,
        or_true report.writable,
        trigger_both_fails c m.queue m.pending consistent r w,
        r,
        w,
        h,
      )
      refl
