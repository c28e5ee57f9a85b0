-- ===== src/IoManager.antt =====
-- mingfwq/iomanager.h and mingfwq/iomanager.cpp: the events that fibers wait for on file
-- descriptors, registered with epoll, and how they are triggered.
--
-- `epoll_ctl` is the system call, on the state of a kernel: it takes the operation, the descriptor
-- and the events asked for, and answers whether it returned 0. A descriptor is not negative. The
-- context of a descriptor is at its index. Each call is one step. The result `none` is a failed
-- assertion or a null pointer that is dereferenced. A scheduler, a fiber and a callback are names.
-- `queue` holds what schedule was called with, in order.
pub mod Invariant
pub mod Ready
pub mod Table
pub mod Adding
mod Examples
use mingfwq.Prelude.{
  ℕ, zero, suc, ◌+◌, ◌-◌, ◌*◌, ◌/◌, ◌%◌, ◌^◌, Bool, true, false, not, ◌&&◌, ◌||◌, Option, none,
  some, List, [], ◌∷◌, ◌++◌, ltb, if◌then◌else◌, length, get_elem?, set,
}

-- IOManager::Event as an argument.
pub data Event : Type 0 where
  no_event : Event
  read_event : Event
  write_event : Event

-- IOManager::Event as a set of bits: READ and WRITE.
pub record Mask : Type 0 where
  pub reading : Bool
  pub writing : Bool

pub data Op : Type 0 where
  op_add : Op
  op_mod : Op
  op_del : Op

abbrev pub no_bits : Mask
no_bits = record { reading = false; writing = false }

-- `events & event`
abbrev pub has : Mask → Event → Bool
has m no_event = false
has m read_event = m.reading
has m write_event = m.writing

-- `events | event`
abbrev pub with_event : Mask → Event → Mask
with_event m no_event = m
with_event m read_event = record m { reading = true }
with_event m write_event = record m { writing = true }

-- `events & ~event`
abbrev pub without_event : Mask → Event → Mask
without_event m no_event = m
without_event m read_event = record m { reading = false }
without_event m write_event = record m { writing = false }

abbrev pub is_any : Mask → Bool
is_any m = m.reading || m.writing

abbrev pub is_some : Option ℕ → Bool
is_some none = false
is_some (some a) = true

pub record EventContext : Type 0 where
  pub scheduler : Option ℕ
  pub fiber : Option ℕ
  pub cb : Option ℕ

abbrev pub empty_context : EventContext
empty_context = record { scheduler = none; fiber = none; cb = none }

pub record FdContext : Type 0 where
  pub fd : ℕ
  pub reader : EventContext
  pub writer : EventContext
  pub events : Mask

pub record Task : Type 0 where
  pub target : ℕ
  pub fiber : Option ℕ
  pub cb : Option ℕ

-- Scheduler::GetThis, Fiber::GetThis, and whether that fiber is in the state EXEC.
pub record Caller : Type 0 where
  pub scheduler : Option ℕ
  pub fiber : ℕ
  pub executing : Bool

pub record IoManager (Kernel : Type 0) : Type 0 where
  pub kernel : Kernel
  pub pending : ℕ
  pub contexts : List FdContext
  pub queue : List Task

-- FdContext::getContext: any other event fails the assertion.
pub get_context : Event → FdContext → Option EventContext
get_context no_event c = none
get_context read_event c = some c.reader
get_context write_event c = some c.writer

-- What is written through the reference that getContext returns.
pub set_context : Event → EventContext → FdContext → FdContext
set_context no_event ctx c = c
set_context read_event ctx c = record c { reader = ctx }
set_context write_event ctx c = record c { writer = ctx }

-- Scheduler::schedule(&cb) or schedule(&fiber): an empty one is not queued.
pub schedule : ℕ → EventContext → List Task → List Task
schedule s ctx queue =
    if is_some ctx.cb
    then queue ++ record { target = s; fiber = none; cb = ctx.cb } ∷ []
    else if is_some ctx.fiber
    then queue ++ record { target = s; fiber = ctx.fiber; cb = none } ∷ []
    else queue

-- schedule swaps the callback or the fiber out of the context.
abbrev pub fired : EventContext → EventContext
fired ctx =
    if is_some ctx.cb
    then record ctx { cb = none; scheduler = none }
    else record ctx { fiber = none; scheduler = none }

-- FdContext::triggerEvent
pub trigger_event : Event → FdContext → List Task → Option (FdContext × List Task)
unfolding get_context set_context schedule
trigger_event e c queue =
    if has c.events e
    then elim (get_context e c) [
      | none ↦ none
      | some ctx ↦ elim ctx.scheduler [
        | none ↦ none
        | some s ↦ some (
          set_context e (fired ctx) (record c { events = without_event c.events e }),
          schedule s ctx queue,
        )
      ]
    ]
    else none

-- contextResize: `n` contexts, the first of them at index `i`.
pub context_resize : ℕ → ℕ → List FdContext → List FdContext
context_resize zero i cs = []
context_resize (suc n) i [] =
    record { fd = i; reader = empty_context; writer = empty_context; events = no_bits }
    ∷ context_resize n (i + 1) []
context_resize (suc n) i (c ∷ cs) = c ∷ context_resize n (i + 1) cs

-- The constructor, over a kernel that watches the tickle pipe.
pub make_manager : {Kernel : Type 0} → Kernel → IoManager Kernel
make_manager k = record { kernel = k; pending = 0; contexts = context_resize 32 0 []; queue = [] }

-- ++m_pendingEventCount and --m_pendingEventCount on a size_t.
abbrev pub add_one : ℕ → ℕ
add_one n = (n + 1) % 2 ^ 64

abbrev pub sub_one : ℕ → ℕ
sub_one n = (n + 2 ^ 64 - 1) % 2 ^ 64

-- The context that addEvent registers: the callback, or else the calling fiber, which has to be
-- in the state EXEC.
pub registration : Caller → Option ℕ → EventContext → Option EventContext
registration caller cb ctx =
    if is_some ctx.scheduler || is_some ctx.fiber || is_some ctx.cb
    then none
    else if is_some cb
    then some (record { scheduler = caller.scheduler; fiber = none; cb = cb })
    else if caller.executing
    then some (record { scheduler = caller.scheduler; fiber = some caller.fiber; cb = none })
    else none

-- The part of addEvent under the read lock: whether the table has the descriptor.
abbrev pub has_context : ℕ → List FdContext → Bool
has_context fd cs = ltb fd (length cs)

-- The part under the write lock, which resizes the table whatever has happened since.
abbrev pub grow : ℕ → List FdContext → List FdContext
grow fd cs = context_resize (fd * 3 / 2) 0 cs

module _ {Kernel : Type 0} (epoll_ctl : Kernel → Op → ℕ → Mask → Bool × Kernel) where
  -- addEvent, where no other thread comes between its two locks: whether it returned 0.
  pub add_event :
      Caller → ℕ → Event → Option ℕ → IoManager Kernel → Option (Bool × IoManager Kernel)
  add_event caller fd e cb m =
      let cs = if has_context fd m.contexts then m.contexts else grow fd m.contexts in
      elim (get_elem? cs fd) [
        | none ↦ none
        | some c ↦
            let asked = with_event c.events e in
            let r = epoll_ctl m.kernel (if is_any c.events then op_mod else op_add) fd asked in
            if has c.events e
            then none
            else if not r.0
            then some (false, record m { kernel = r.1; contexts = cs })
            else elim (get_context e c) [
              | none ↦ none
              | some ctx ↦ elim (registration caller cb ctx) [
                | none ↦ none
                | some ctx' ↦ some (
                  true,
                  record m {
                    kernel = r.1;
                    contexts = set cs fd (set_context e ctx' (record c { events = asked }));
                    pending = add_one m.pending;
                  },
                )
              ]
            ]
      ]

  -- delEvent
  pub del_event : ℕ → Event → IoManager Kernel → Option (Bool × IoManager Kernel)
  unfolding set_context
  del_event fd e m = elim (get_elem? m.contexts fd) [
    | none ↦ some (false, m)
    | some c ↦
        let left = without_event c.events e in
        let r = epoll_ctl m.kernel (if is_any left then op_mod else op_del) fd left in
        if not (has c.events e)
        then some (false, m)
        else if not r.0
        then some (false, record m { kernel = r.1 })
        else some (
          true,
          record m {
            kernel = r.1;
            contexts = set m.contexts fd (set_context e empty_context (record c { events = left }));
            pending = sub_one m.pending;
          },
        )
  ]

  -- cancelEvent
  pub cancel_event : ℕ → Event → IoManager Kernel → Option (Bool × IoManager Kernel)
  cancel_event fd e m = elim (get_elem? m.contexts fd) [
    | none ↦ some (false, m)
    | some c ↦
        let left = without_event c.events e in
        let r = epoll_ctl m.kernel (if is_any left then op_mod else op_del) fd left in
        if not (has c.events e)
        then some (false, m)
        else if not r.0
        then some (false, record m { kernel = r.1 })
        else elim (trigger_event e c m.queue) [
          | none ↦ none
          | some t ↦ some (
            true,
            record m {
              kernel = r.1;
              contexts = set m.contexts fd t.0;
              queue = t.1;
              pending = sub_one m.pending;
            },
          )
        ]
  ]
