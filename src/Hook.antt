-- ===== src/Hook.antt =====
-- mingfwq/hook.cpp: the system calls that are hooked to keep the table of descriptors: socket,
-- close, fcntl with F_SETFL and F_GETFL, ioctl with FIONBIO, and setsockopt of a timeout.
--
-- The calls that are hooked are parameters on a kernel of any type; a result of -1 is `none`. A
-- descriptor that a caller passes is not negative. The function's `none` is an access out of
-- bounds in the table or a failed assertion in cancelAll.
pub mod Reopened
pub mod Flags
pub mod Io
pub mod Sleep
mod Samples
mod Examples
use mingfwq.Prelude.{
  ℕ, zero, suc, ◌+◌, ◌-◌, ◌*◌, ◌/◌, ◌%◌, ◌^◌, Bool, true, false, not, ◌&&◌, ◌||◌, Option, none,
  some, List, [], ◌∷◌, ◌==◌, if◌then◌else◌, bit_and, bit_or,
}
use mingfwq.FdManager.{
  FdCtx, FdManager, TimeoutType, get, del, set_timeout, set_user_nonblock, o_nonblock,
}
use mingfwq.IoManager.{Op, Mask, IoManager}
use mingfwq.IoManager.Ready.{cancel_all}

-- The state of a thread that calls: whether it hooks, the table, and IOManager::GetThis().
pub record Process (Kernel Epoll : Type 0) : Type 0 where
  pub hook_enable : Bool
  pub fds : FdManager Kernel
  pub manager : Option (IoManager Epoll)

abbrev pub change : {Kernel : Type 0} → ℕ → (FdCtx → FdCtx) → FdManager Kernel → FdManager Kernel
change a f m = record m { contexts = λ b. if b == a then f (m.contexts a) else m.contexts b }

-- What is passed on in place of `arg`, for a context whose flag is set: the bits of an int.
abbrev pub passed : Bool → ℕ → ℕ
passed nonblock arg = if nonblock then bit_or arg o_nonblock else arg - bit_and arg o_nonblock

module _ {Kernel : Type 0} (fstat : Kernel → ℕ → Option Bool) (get_flags : Kernel → ℕ → ℕ)
    (set_flags : Kernel → ℕ → ℕ → Kernel) where
  -- FdMgr::GetInstance()->get(fd)
  abbrev pub known : ℕ → FdManager Kernel → Option ℕ
  known fd m = elim (get fstat get_flags set_flags (some fd) false m) [ none ↦ none | some r ↦ r.0 ]

  -- The contexts that fcntl and ioctl look at: `!ctx || ctx->isClose()` is not so.
  abbrev pub open_context : ℕ → FdManager Kernel → Option ℕ
  open_context fd m = elim (known fd m) [
    | none ↦ none
    | some a ↦ if (m.contexts a).is_closed then none else some a
  ]

  -- fcntl(fd, F_SETFL, arg)
  pub fcntl_setfl : ℕ → ℕ → FdManager Kernel → FdManager Kernel
  unfolding set_user_nonblock
  fcntl_setfl fd arg m =
      let plain = record m { kernel = set_flags m.kernel fd arg } in
      elim (open_context fd m) [
        | none ↦ plain
        | some a ↦
            let m' = change a (set_user_nonblock (not (bit_and arg o_nonblock == 0))) m in
            if not (m.contexts a).is_socket then plain else record m' {
              kernel = set_flags m.kernel fd (passed (m'.contexts a).user_nonblock arg);
            }
      ]

  -- fcntl(fd, F_GETFL)
  pub fcntl_getfl : ℕ → FdManager Kernel → ℕ
  fcntl_getfl fd m =
      let arg = get_flags m.kernel fd in
      elim (open_context fd m) [
        | none ↦ arg
        | some a ↦ if (m.contexts a).is_socket then arg else passed (m.contexts a).user_nonblock arg
      ]

  -- ioctl(fd, FIONBIO, &value): `ioctl_f` is the system call.
  pub ioctl_fionbio : (Kernel → ℕ → ℕ → Kernel) → ℕ → ℕ → FdManager Kernel → FdManager Kernel
  unfolding set_user_nonblock
  ioctl_fionbio ioctl_f fd value m =
      let m' = record m { kernel = ioctl_f m.kernel fd value } in
      elim (open_context fd m) [
        | none ↦ m'
        | some a ↦
            if (m.contexts a).is_socket
            then m'
            else change a (set_user_nonblock (not (value == 0))) m'
      ]

module _ {Kernel Epoll : Type 0} (fstat : Kernel → ℕ → Option Bool) (get_flags : Kernel → ℕ → ℕ)
    (set_flags : Kernel → ℕ → ℕ → Kernel) where
  -- socket: `opens` is the system call.
  pub socket :
      (Kernel → Option ℕ × Kernel) → Process Kernel Epoll → Option (Option ℕ × Process Kernel Epoll)
  socket opens p =
      let r = opens p.fds.kernel in
      let fds = record p.fds { kernel = r.1 } in
      let opened = some (r.0, record p { fds = fds }) in
      if not p.hook_enable then opened else elim r.0 [
        | none ↦ opened
        | some fd ↦ elim (get fstat get_flags set_flags (some fd) true fds) [
          | none ↦ none
          | some t ↦ some (some fd, record p { fds = t.1 })
        ]
      ]

  -- close
  pub close :
      (Kernel → ℕ → Bool × Kernel)
      → (Epoll → Op → ℕ → Mask → Bool × Epoll)
      → ℕ
      → Process Kernel Epoll
      → Option (Bool × Process Kernel Epoll)
  close close_f epoll_ctl fd p =
      let finish : Process Kernel Epoll → Option (Bool × Process Kernel Epoll) = λ q.
        let r = close_f q.fds.kernel fd in
        some (r.0, record q { fds = record q.fds { kernel = r.1 } }) in
      let forget = λ (q : Process Kernel Epoll). finish (record q { fds = del fd q.fds }) in
      if p.hook_enable then finish p else elim (known fstat get_flags set_flags fd p.fds) [
        | some a ↦ finish p
        | none ↦ elim p.manager [
          | none ↦ forget p
          | some io ↦ elim (cancel_all epoll_ctl fd io) [
            | none ↦ none
            | some t ↦ forget (record p { manager = some t.1 })
          ]
        ]
      ]

  -- setsockopt(fd, SOL_SOCKET, SO_RCVTIMEO or SO_SNDTIMEO, ...) of a timeval.
  pub setsockopt_timeout :
      (Kernel → ℕ → TimeoutType → ℕ → ℕ → Kernel)
      → ℕ
      → TimeoutType
      → ℕ
      → ℕ
      → Process Kernel Epoll
      → Process Kernel Epoll
  setsockopt_timeout setsockopt_f fd type sec usec p =
      let fds = record p.fds { kernel = setsockopt_f p.fds.kernel fd type sec usec } in
      let ms = (sec * 1000 + usec / 1000) % 2 ^ 64 in
      if not p.hook_enable
      then record p { fds = fds }
      else elim (known fstat get_flags set_flags fd p.fds) [
        | none ↦ record p { fds = fds }
        | some a ↦ record p { fds = change a (set_timeout type ms) fds }
      ]
