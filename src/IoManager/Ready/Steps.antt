-- ===== src/IoManager/Ready/Steps.antt =====
-- delEvent, cancelEvent, cancelAll and one round of idle of mingfwq/iomanager.cpp keep the
-- invariant, whatever epoll_ctl answers.
use mingfwq.Prelude.{
  ℕ, ◌+◌, ◌≤◌, ◌<◌, ◌^◌, ◌≡◌, refl, sym, ap, ◌∙◌, arith, Bool, true, false, not, ◌&&◌, inl, inr,
  some, List, [], ◌∷◌, ◌++◌, if◌then◌else◌, length, get_elem?, set, Bool-cases, Option-cases,
  append-nil, append_assoc, length-append, none,
}
use mathlib.Core.Path.{ap₂}
use mingfwq.IoManager.{
  Event, no_event, read_event, write_event, Mask, Op, op_mod, op_del, has, is_any, without_event,
  empty_context, FdContext, Task, IoManager, set_context, sub_one, del_event, cancel_event,
}
use mingfwq.IoManager.Ready.{trigger_if, trigger_both}
use mingfwq.IoManager.Invariant.{
  IsConsistent, bit, registered, IsValid, All-get_elem?, registered-count, set-IsValid,
  trigger_event-IsConsistent, waiting, waiting_for, KeepsOther,
}

-- From `m` to `m'` the tasks `ts` are queued, in order, and as many events are taken off the
-- pending ones.
abbrev pub Triggers : {Kernel : Type 0} → IoManager Kernel → IoManager Kernel → List Task → Type 0
Triggers m m' ts = IsValid m' × (m'.queue ≡ m.queue ++ ts) × (m'.pending + length ts ≡ m.pending)

sub_one_lem : (n : ℕ) → 1 ≤ n → n < 2 ^ 64 → sub_one n + 1 ≡ n
sub_one_lem n h k = omega (arith, h, k)

registered-without_event :
    (c : FdContext) (e : Event)
    → has c.events e ≡ true
    → bit (without_event c.events e).reading + bit (without_event c.events e).writing + 1
      ≡ registered c
registered-without_event c no_event h = cc
registered-without_event c read_event h = rw h (omega arith)
registered-without_event c write_event h = rw h (omega arith)

del-IsConsistent :
    (c : FdContext) (e : Event)
    → IsConsistent c
    → IsConsistent (set_context e empty_context (record c { events = without_event c.events e }))
unfolding set_context
del-IsConsistent c no_event p = p
del-IsConsistent c read_event p = (refl, p.1)
del-IsConsistent c write_event p = (p.0, refl)

events-set_context :
    (c : FdContext) (e : Event)
    → (set_context e empty_context (record c { events = without_event c.events e })).events
      ≡ without_event c.events e
unfolding set_context
events-set_context c no_event = refl
events-set_context c read_event = refl
events-set_context c write_event = refl

same_other : (e : Event) (c : FdContext) → KeepsOther e c c
same_other no_event c = tt
same_other read_event c = refl
same_other write_event c = refl

-- The tasks of the events that are asked for, the reader's first.
abbrev pub tasks_for : Bool → Bool → FdContext → List Task
tasks_for a b c = (if a then waiting c.reader else []) ++ (if b then waiting c.writer else [])

-- One event of a consistent context is triggered, if asked for.
trigger_if_lem :
    (b : Bool) (e : Event) (c : FdContext) (queue : List Task) (pending : ℕ)
    → IsConsistent c
    → (b ≡ true → has c.events e ≡ true)
    → registered c ≤ pending
    → pending < 2 ^ 64
    → (c' : FdContext) × (ts : List Task) × (pending' : ℕ) × (trigger_if b e (c, queue, pending)
        ≡ some (c', queue ++ ts, pending'))
      × IsConsistent c'
      × (c'.events ≡ (if b then without_event c.events e else c.events))
      × (pending' + length ts ≡ pending)
      × (registered c' + length ts ≡ registered c)
      × (ts ≡ (if b then waiting_for e c else []))
      × KeepsOther e c c'
unfolding trigger_if
trigger_if_lem false e c queue pending p h k l = (
  c,
  [],
  pending,
  rw (trigger_if, append-nil queue) refl,
  p,
  refl,
  omega arith,
  omega arith,
  refl,
  same_other e c,
)
trigger_if_lem true e c queue pending p h k l =
    let (c', t, q, p', events, is, other) = trigger_event-IsConsistent e c queue p (h refl) in
    let fewer = registered-without_event c e (h refl) in
    let fewer' : registered c' + 1 ≡ registered c = rw events fewer in
    (
      c',
      t ∷ [],
      sub_one pending,
      rw (trigger_if, q) refl,
      p',
      events,
      sub_one_lem pending (omega (arith, k, fewer')) l,
      fewer',
      sym is,
      other,
    )

after_read :
    (a : Bool) (m : Mask)
    → ((if a then without_event m read_event else m).reading ≡ (m.reading && not a))
      × ((if a then without_event m read_event else m).writing ≡ m.writing)
after_read true m = (ground arith, refl)
after_read false m = (ground arith, refl)

after_write :
    (b : Bool) (m : Mask)
    → ((if b then without_event m write_event else m).reading ≡ m.reading)
      × ((if b then without_event m write_event else m).writing ≡ (m.writing && not b))
after_write true m = (refl, ground arith)
after_write false m = (refl, ground arith)

trigger_both_lem :
    (a b : Bool) (c : FdContext) (queue : List Task) (pending : ℕ)
    → IsConsistent c
    → (a ≡ true → c.events.reading ≡ true)
    → (b ≡ true → c.events.writing ≡ true)
    → registered c ≤ pending
    → pending < 2 ^ 64
    → (c' : FdContext) × (ts : List Task) × (pending' : ℕ) × (trigger_both a b (c, queue, pending)
        ≡ some (c', queue ++ ts, pending'))
      × IsConsistent c'
      × (c'.events.reading ≡ (c.events.reading && not a))
      × (c'.events.writing ≡ (c.events.writing && not b))
      × (pending' + length ts ≡ pending)
      × (registered c' + length ts ≡ registered c)
      × (ts ≡ tasks_for a b c)
unfolding trigger_both
trigger_both_lem a b c queue pending p ha hb k l =
    let (c1, ts, n, q, p1, e1, s1, r1, is1, other) =
      trigger_if_lem a read_event c queue pending p ha k l in
    let still : c1.events.writing ≡ c.events.writing =
      ap (λ m. m.writing) e1 ∙ (after_read a c.events).1 in
    let (c2, us, n', q2, p2, e2, s2, r2, is2, _) =
      trigger_if_lem b write_event c1 (queue ++ ts) n p1 (λ e. still ∙ hb e)
        (omega (arith, k, s1, r1)) (omega (arith, l, s1)) in
    (
      c2,
      ts ++ us,
      n',
      rw (trigger_both, q, q2, append_assoc queue ts us) refl,
      p2,
      ap (λ m. m.reading) e2
          ∙ (after_write b c1.events).0
          ∙ ap (λ m. m.reading) e1
          ∙ (after_read a c.events).0,
      ap (λ m. m.writing) e2 ∙ (after_write b c1.events).1 ∙ ap (λ w. w && not b) still,
      omega (arith, length-append ts us, s1, s2),
      omega (arith, length-append ts us, r1, r2),
      ap₂ (λ v w. v ++ w) is1 (is2 ∙ ap (λ ctx. if b then waiting ctx else []) other),
    )

-- The event is registered, and epoll_ctl succeeds in taking it off.
abbrev pub takes_off :
    {Kernel : Type 0} (epoll_ctl : Kernel → Op → ℕ → Mask → Bool × Kernel)
    → ℕ
    → Event
    → IoManager Kernel
    → Bool
takes_off epoll_ctl fd e m = elim (get_elem? m.contexts fd) [
  | none ↦ false
  | some c ↦
      let left = without_event c.events e in
      has c.events e && (epoll_ctl m.kernel (if is_any left then op_mod else op_del) fd left).0
]

-- delEvent of a valid manager answers whether the event was registered and epoll_ctl took it
-- off, and the manager stays valid: where it answers true one event fewer is pending, and otherwise
-- as many as before; nothing is triggered.
pub del_event-IsValid :
    {Kernel : Type 0} (epoll_ctl : Kernel → Op → ℕ → Mask → Bool × Kernel) (fd : ℕ) (e : Event)
    (m : IoManager Kernel)
    → IsValid m
    → (b : Bool) × (m' : IoManager Kernel) × (del_event epoll_ctl fd e m ≡ some (b, m'))
      × IsValid m'
      × (m'.pending + bit b ≡ m.pending)
      × (m'.queue ≡ m.queue)
      × (b ≡ takes_off epoll_ctl fd e m)
unfolding del_event
del_event-IsValid epoll_ctl fd e m v = elim (Option-cases (get_elem? m.contexts fd)) [
  | inl f ↦ (false, m, rw (del_event, f) refl, v, omega arith, refl, rw (takes_off, f) refl)
  | inr (c, f) ↦ elim (Bool-cases (has c.events e)) [
    | inr g ↦ (false, m, rw (del_event, f, g) refl, v, omega arith, refl, rw (takes_off, f, g) refl)
    | inl g ↦
        let left = without_event c.events e in
        let r = epoll_ctl m.kernel (if is_any left then op_mod else op_del) fd left in
        elim (Bool-cases r.0) [
          | inr h ↦ (
            false,
            record m { kernel = r.1 },
            rw (del_event, f, g, h) refl,
            record {
              consistent = v.consistent;
              counted = v.counted;
              enough = v.enough;
              bounded = v.bounded;
            },
            omega arith,
            refl,
            rw (takes_off, f, g, h) refl,
          )
          | inl h ↦
              let p = All-get_elem? m.contexts fd c v.consistent f in
              let c' = set_context e empty_context (record c { events = left }) in
              let fewer = registered-without_event c e g in
              let held = registered-count m.contexts fd c f in
              let less =
                sub_one_lem m.pending (omega (arith, fewer, held, v.counted))
                  (omega (arith, v.counted, v.bounded)) in
              (
                true,
                _,
                rw (del_event, f, g, h) refl,
                set-IsValid r.1 fd c c' m.queue (sub_one m.pending) v f (del-IsConsistent c e p)
                    (rw (events-set_context c e) (omega (arith, fewer, less)))
                    (omega (arith, less, v.counted, v.bounded)),
                less,
                refl,
                rw (takes_off, f, g, h) refl,
              )
        ]
  ]
]

-- Nothing but the kernel changes.
pub same_state :
    {Kernel : Type 0} (m : IoManager Kernel) (k : Kernel)
    → IsValid m
    → Triggers m (record m { kernel = k }) []
same_state m k v = (
  record { consistent = v.consistent; counted = v.counted; enough = v.enough; bounded = v.bounded },
  sym (append-nil m.queue),
  omega arith,
)

-- cancelEvent of a valid manager answers whether the event was registered and epoll_ctl took it
-- off, and the manager stays valid: where it answers true it queues one task and one event fewer is
-- pending, otherwise none and as many.
pub cancel_event-Triggers :
    {Kernel : Type 0} (epoll_ctl : Kernel → Op → ℕ → Mask → Bool × Kernel) (fd : ℕ) (e : Event)
    (m : IoManager Kernel)
    → IsValid m
    → (b : Bool) × (m' : IoManager Kernel) × (ts : List Task) × (cancel_event epoll_ctl fd e m
        ≡ some (b, m'))
      × Triggers m m' ts
      × (length ts ≡ bit b)
      × (b ≡ takes_off epoll_ctl fd e m)
unfolding cancel_event
cancel_event-Triggers epoll_ctl fd e m v = elim (Option-cases (get_elem? m.contexts fd)) [
  | inl f ↦ (
    false,
    m,
    [],
    rw (cancel_event, f) refl,
    same_state m m.kernel v,
    refl,
    rw (takes_off, f) refl,
  )
  | inr (c, f) ↦ elim (Bool-cases (has c.events e)) [
    | inr g ↦ (
      false,
      m,
      [],
      rw (cancel_event, f, g) refl,
      same_state m m.kernel v,
      refl,
      rw (takes_off, f, g) refl,
    )
    | inl g ↦
        let left = without_event c.events e in
        let r = epoll_ctl m.kernel (if is_any left then op_mod else op_del) fd left in
        elim (Bool-cases r.0) [
          | inr h ↦ (
            false,
            record m { kernel = r.1 },
            [],
            rw (cancel_event, f, g, h) refl,
            same_state m r.1 v,
            refl,
            rw (takes_off, f, g, h) refl,
          )
          | inl h ↦
              let p = All-get_elem? m.contexts fd c v.consistent f in
              let (c', t, q, p', events, is, other) = trigger_event-IsConsistent e c m.queue p g in
              let fewer : registered c' + 1 ≡ registered c =
                rw events (registered-without_event c e g) in
              let held = registered-count m.contexts fd c f in
              let less =
                sub_one_lem m.pending (omega (arith, fewer, held, v.counted))
                  (omega (arith, v.counted, v.bounded)) in
              (
                true,
                record m {
                  kernel = r.1;
                  contexts = set m.contexts fd c';
                  queue = m.queue ++ t ∷ [];
                  pending = sub_one m.pending;
                },
                t ∷ [],
                rw (cancel_event, f, g, h, q) refl,
                (
                  set-IsValid r.1 fd c c' (m.queue ++ t ∷ []) (sub_one m.pending) v f p'
                      (omega (arith, fewer, less)) (omega (arith, less, v.counted, v.bounded)),
                  refl,
                  less,
                ),
                refl,
                rw (takes_off, f, g, h) refl,
              )
        ]
  ]
]

-- Both parts on the context of `fd` in a valid manager.
pub both-Triggers :
    {Kernel : Type 0} (m : IoManager Kernel) (k : Kernel) (fd : ℕ) (c : FdContext) (a b : Bool)
    → IsValid m
    → get_elem? m.contexts fd ≡ some c
    → (a ≡ true → c.events.reading ≡ true)
    → (b ≡ true → c.events.writing ≡ true)
    → (c' : FdContext) × (ts : List Task) × (n : ℕ) × (trigger_both a b (c, m.queue, m.pending)
        ≡ some (c', m.queue ++ ts, n))
      × Triggers m
          (record m {
            kernel = k;
            contexts = set m.contexts fd c';
            queue = m.queue ++ ts;
            pending = n;
          })
          ts
      × (c'.events.reading ≡ (c.events.reading && not a))
      × (c'.events.writing ≡ (c.events.writing && not b))
      × (registered c' + length ts ≡ registered c)
      × (ts ≡ tasks_for a b c)
both-Triggers m k fd c a b v f ha hb =
    let p = All-get_elem? m.contexts fd c v.consistent f in
    let held = registered-count m.contexts fd c f in
    let (c', ts, n, q, p', er, ew, s, r, is) =
      trigger_both_lem a b c m.queue m.pending p ha hb (omega (arith, held, v.counted))
        (omega (arith, v.counted, v.bounded)) in
    (
      c',
      ts,
      n,
      q,
      (
        set-IsValid k fd c c' (m.queue ++ ts) n v f p' (omega (arith, s, r))
            (omega (arith, s, v.counted, v.bounded)),
        refl,
        s,
      ),
      er,
      ew,
      r,
      is,
    )
