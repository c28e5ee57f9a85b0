-- ===== src/IoManager/Invariant.antt =====
-- IOManager of mingfwq/iomanager.cpp between two calls: a context is armed exactly for the events
-- that it has, and m_pendingEventCount counts them.
use mingfwq.Prelude.{
  ℕ, zero, suc, ◌+◌, ◌≤◌, ◌<◌, ◌^◌, ◌≡◌, refl, ap, subst, arith, Bool, true, not, ◌&&◌, ◌||◌,
  Option, none, some, List, [], ◌∷◌, ◌++◌, if◌then◌else◌, length, get_elem?, set, All,
}
use mathlib.Core.Option.{some-injective}
use mingfwq.IoManager.{
  Event, no_event, read_event, write_event, has, without_event, is_some, EventContext, FdContext,
  Task, IoManager, get_context, set_context, schedule, fired, trigger_event,
}

-- A scheduler, and a callback or a fiber but not both.
abbrev pub is_armed : EventContext → Bool
is_armed ctx =
    is_some ctx.scheduler
    && (is_some ctx.cb && not (is_some ctx.fiber) || is_some ctx.fiber && not (is_some ctx.cb))

abbrev pub is_clear : EventContext → Bool
is_clear ctx = not (is_some ctx.scheduler) && not (is_some ctx.cb) && not (is_some ctx.fiber)

-- The context of an event that is registered, or not.
abbrev pub fits : Bool → EventContext → Bool
fits b ctx = if b then is_armed ctx else is_clear ctx

abbrev pub IsConsistent : FdContext → Type 0
IsConsistent c = (fits c.events.reading c.reader ≡ true) × (fits c.events.writing c.writer ≡ true)

abbrev pub bit : Bool → ℕ
bit b = if b then 1 else 0

abbrev pub registered : FdContext → ℕ
registered c = bit c.events.reading + bit c.events.writing

abbrev pub count : List FdContext → ℕ
count [] = 0
count (c ∷ cs) = registered c + count cs

pub record IsValid {Kernel : Type 0} (m : IoManager Kernel) : Type 0 where
  pub consistent : All IsConsistent m.contexts
  pub counted : m.pending ≡ count m.contexts
  pub enough : 32 ≤ length m.contexts
  pub bounded : count m.contexts < 2 ^ 64

pub All-get_elem? :
    (cs : List FdContext) (i : ℕ) (c : FdContext)
    → All IsConsistent cs
    → get_elem? cs i ≡ some c
    → IsConsistent c
All-get_elem? [] i c p e = cc
All-get_elem? (x ∷ xs) zero c p e = subst IsConsistent (some-injective _ _ e) p.0
All-get_elem? (x ∷ xs) (suc i) c p e = All-get_elem? xs i c p.1 e

pub All-set :
    (cs : List FdContext) (i : ℕ) (c : FdContext)
    → All IsConsistent cs
    → IsConsistent c
    → All IsConsistent (set cs i c)
All-set [] i c p q = tt
All-set (x ∷ xs) zero c p q = (q, p.1)
All-set (x ∷ xs) (suc i) c p q = (p.0, All-set xs i c p.1 q)

pub count-set :
    (cs : List FdContext) (i : ℕ) (c c' : FdContext)
    → get_elem? cs i ≡ some c
    → count (set cs i c') + registered c ≡ count cs + registered c'
count-set [] i c c' e = cc
count-set (x ∷ xs) zero c c' e =
    subst (λ y. registered c' + count xs + registered y ≡ registered x + count xs + registered c')
      (some-injective _ _ e) (omega arith)
count-set (x ∷ xs) (suc i) c c' e = omega (arith, count-set xs i c c' e)

pub registered-count :
    (cs : List FdContext) (i : ℕ) (c : FdContext)
    → get_elem? cs i ≡ some c
    → registered c ≤ count cs
registered-count [] i c e = cc
registered-count (x ∷ xs) zero c e =
    subst (λ y. registered y ≤ registered x + count xs) (some-injective _ _ e) (omega arith)
registered-count (x ∷ xs) (suc i) c e = omega (arith, registered-count xs i c e)

pub length-set : (cs : List FdContext) (i : ℕ) (c : FdContext) → length (set cs i c) ≡ length cs
length-set [] i c = refl
length-set (x ∷ xs) zero c = refl
length-set (x ∷ xs) (suc i) c = ap suc (length-set xs i c)

-- A context is replaced by another, and the count follows.
pub set-IsValid :
    {Kernel : Type 0} {m : IoManager Kernel} (k : Kernel) (fd : ℕ) (c c' : FdContext)
    (queue : List Task) (pending : ℕ)
    → IsValid m
    → get_elem? m.contexts fd ≡ some c
    → IsConsistent c'
    → pending + registered c ≡ m.pending + registered c'
    → pending < 2 ^ 64
    → IsValid
        (record m { kernel = k; contexts = set m.contexts fd c'; queue = queue; pending = pending })
set-IsValid {m = m} k fd c c' queue pending v e q p b =
    let counts = count-set m.contexts fd c c' e in
    record {
      consistent = All-set m.contexts fd c' v.consistent q;
      counted = omega (arith, counts, p, v.counted);
      enough = omega (arith, v.enough, length-set m.contexts fd c');
      bounded = omega (arith, counts, p, v.counted, b);
    }

-- The task for a scheduler, a fiber and a callback: the callback if there is one.
abbrev task_of : Option ℕ → Option ℕ → Option ℕ → List Task
task_of none f c = []
task_of (some s) f (some c) = record { target = s; fiber = none; cb = some c } ∷ []
task_of (some s) (some f) none = record { target = s; fiber = some f; cb = none } ∷ []
task_of (some s) none none = []

-- What waits in a context, for the scheduler that is to run it.
abbrev pub waiting : EventContext → List Task
waiting ctx = task_of ctx.scheduler ctx.fiber ctx.cb

abbrev pub waiting_for : Event → FdContext → List Task
waiting_for no_event c = []
waiting_for read_event c = waiting c.reader
waiting_for write_event c = waiting c.writer

-- The context of the other event is as it was.
abbrev pub KeepsOther : Event → FdContext → FdContext → Type 0
KeepsOther no_event c c' = Unit
KeepsOther read_event c c' = c'.writer ≡ c.writer
KeepsOther write_event c c' = c'.reader ≡ c.reader

-- schedule takes the callback or the fiber of an armed context, which is clear afterwards.
fired_lem :
    (ctx : EventContext) (queue : List Task)
    → is_armed ctx ≡ true
    → (s : ℕ) × (t : Task) × (ctx.scheduler ≡ some s)
      × (schedule s ctx queue ≡ queue ++ t ∷ [])
      × (is_clear (fired ctx) ≡ true)
      × (waiting ctx ≡ t ∷ [])
unfolding schedule
fired_lem ctx queue h = go ctx.scheduler ctx.fiber ctx.cb h
  where
    of : Option ℕ → Option ℕ → Option ℕ → EventContext
    of s f c = record { scheduler = s; fiber = f; cb = c }

    go :
        (sch f c : Option ℕ)
        → is_armed (of sch f c) ≡ true
        → (s : ℕ) × (t : Task) × (sch ≡ some s)
          × (schedule s (of sch f c) queue ≡ queue ++ t ∷ [])
          × (is_clear (fired (of sch f c)) ≡ true)
          × (task_of sch f c ≡ t ∷ [])
    go none f c h = cc
    go (some s) none none h = cc
    go (some s) (some f) (some c) h = cc
    go (some s) none (some c) h =
        (s, record { target = s; fiber = none; cb = some c }, refl, refl, refl, refl)
    go (some s) (some f) none h =
        (s, record { target = s; fiber = some f; cb = none }, refl, refl, refl, refl)

-- triggerEvent of a registered event queues the one fiber or callback that waits for it, and
-- leaves a consistent context without the event.
pub trigger_event-IsConsistent :
    (e : Event) (c : FdContext) (queue : List Task)
    → IsConsistent c
    → has c.events e ≡ true
    → (c' : FdContext) × (t : Task) × (trigger_event e c queue ≡ some (c', queue ++ t ∷ []))
      × IsConsistent c'
      × (c'.events ≡ without_event c.events e)
      × (waiting_for e c ≡ t ∷ [])
      × KeepsOther e c c'
unfolding trigger_event get_context set_context schedule
trigger_event-IsConsistent no_event c queue p h = cc
trigger_event-IsConsistent read_event c queue p h =
    let (s, t, e, q, clear, is) = fired_lem c.reader queue (rw h at p.0) in
    (
      record c { events = without_event c.events read_event; reader = fired c.reader },
      t,
      rw (h, e, q) refl,
      (clear, p.1),
      refl,
      is,
      refl,
    )
trigger_event-IsConsistent write_event c queue p h =
    let (s, t, e, q, clear, is) = fired_lem c.writer queue (rw h at p.1) in
    (
      record c { events = without_event c.events write_event; writer = fired c.writer },
      t,
      rw (h, e, q) refl,
      (p.0, clear),
      refl,
      is,
      refl,
    )
