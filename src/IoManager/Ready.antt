-- ===== src/IoManager/Ready.antt =====
-- The operations of mingfwq/iomanager.cpp that trigger several events at once: cancelAll, and what
-- idle does with one descriptor that epoll_wait reports.
pub mod Steps
pub mod Rounds
use mingfwq.Prelude.{
  ℕ, Bool, true, false, not, ◌&&◌, ◌||◌, Option, none, some, List, if◌then◌else◌, get_elem?, set,
}
use mingfwq.IoManager.{
  Event, no_event, read_event, write_event, Mask, Op, op_add, op_mod, op_del, no_bits, has, is_any,
  FdContext, Task, IoManager, trigger_event, sub_one,
}

-- `if(...){ fd_ctx->triggerEvent(event); --m_pendingEventCount; }`
pub trigger_if : Bool → Event → FdContext × List Task × ℕ → Option (FdContext × List Task × ℕ)
trigger_if false e s = some s
trigger_if true e (c, queue, pending) = elim (trigger_event e c queue) [
  | none ↦ none
  | some t ↦ some (t.0, t.1, sub_one pending)
]

-- The READ part and the WRITE part, which cancelAll and idle share.
pub trigger_both : Bool → Bool → FdContext × List Task × ℕ → Option (FdContext × List Task × ℕ)
trigger_both reading writing s = elim (trigger_if reading read_event s) [
  | none ↦ none
  | some s' ↦ trigger_if writing write_event s'
]

-- What epoll_wait reports of a descriptor; `broken` is EPOLLERR or EPOLLHUP.
pub record Report : Type 0 where
  pub readable : Bool
  pub writable : Bool
  pub broken : Bool

-- `real_events`
abbrev pub real_events : Report → Mask
real_events r = record { reading = r.readable || r.broken; writing = r.writable || r.broken }

-- `left_events`
abbrev pub left_events : Mask → Mask → Mask
left_events events real = record {
  reading = events.reading && not real.reading;
  writing = events.writing && not real.writing;
}

module _ {Kernel : Type 0} (epoll_ctl : Kernel → Op → ℕ → Mask → Bool × Kernel) where
  -- cancelAll
  pub cancel_all : ℕ → IoManager Kernel → Option (Bool × IoManager Kernel)
  cancel_all fd m = elim (get_elem? m.contexts fd) [
    | none ↦ some (false, m)
    | some c ↦
        let r = epoll_ctl m.kernel op_del fd no_bits in
        if not (is_any c.events)
        then some (false, m)
        else if not r.0
        then some (false, record m { kernel = r.1 })
        else elim (trigger_both c.events.reading c.events.writing (c, m.queue, m.pending)) [
          | none ↦ none
          | some s ↦
              if is_any s.0.events
              then none
              else some (
                true,
                record m {
                  kernel = r.1;
                  contexts = set m.contexts fd s.0;
                  queue = s.1;
                  pending = s.2;
                },
              )
        ]
  ]

  -- The body of idle's loop over the reported events, for the context of `fd`.
  pub dispatch : ℕ → Report → IoManager Kernel → Option (IoManager Kernel)
  dispatch fd report m = elim (get_elem? m.contexts fd) [
    | none ↦ none
    | some c ↦
        let real = real_events report in
        let left = left_events c.events real in
        let r = epoll_ctl m.kernel (if is_any left then op_mod else op_del) fd left in
        if not ((c.events.reading && real.reading) || (c.events.writing && real.writing))
        then some m
        else if not r.0
        then some (record m { kernel = r.1 })
        else elim (trigger_both real.reading real.writing (c, m.queue, m.pending)) [
          | none ↦ none
          | some s ↦ some (record m {
            kernel = r.1;
            contexts = set m.contexts fd s.0;
            queue = s.1;
            pending = s.2;
          })
        ]
  ]
