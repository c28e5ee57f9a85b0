-- ===== src/Hook/Io/Connect.antt =====
-- connect_with_timeout of mingfwq/hook.cpp: a connect that is in progress waits in a fiber until
-- the socket can be written or the time is over.
--
-- `call` of the interface is the system's connect, and `sock_error` getsockopt of SO_ERROR, with
-- `none` for -1.
use mingfwq.Prelude.{ℕ, Bool, false, not, Option, none, some, ◌==◌, if◌then◌else◌}
use mingfwq.FdManager.{FdManager}
use mingfwq.Hook.{known}
use mingfwq.Hook.Io.{Reply, value, failed, refused, ebadf, Waiting, arm, disarm}

abbrev pub einprogress : ℕ
einprogress = 115

abbrev pub is_pending : Reply → Bool
is_pending (failed e) = e == einprogress
is_pending _ = false

module _ {W : Type 0} (o : Waiting W) (sock_error : W → Option ℕ × W) where
  -- From getsockopt_f on.
  pub connected : W → Reply × W
  connected w =
      let r = sock_error w in
      elim r.0 [
        | none ↦ (refused, r.1)
        | some e ↦ if e == 0 then (value 0, r.1) else (failed e, r.1)
      ]

  -- What connect_with_timeout does while the connection is made.
  pub await : ℕ → W → Reply × W
  unfolding connected
  await timeout_ms w =
      let t = arm o timeout_ms w in
      let e = o.add_event t.1 in
      let h = o.hold e.1 in
      let w' = disarm o t.0 h.1 in
      if not e.0
      then connected (disarm o t.0 e.1)
      else if h.0 == 0
      then connected w'
      else (failed h.0, w')

  -- The connect of a socket that the fibers wait for.
  pub connect_waiting : ℕ → W → Reply × W
  connect_waiting timeout_ms w =
      let r = o.call w in
      elim r.0 [
        | value n ↦ r
        | refused ↦ r
        | failed e ↦ if e == einprogress then await timeout_ms r.1 else r
      ]

  -- connect_with_timeout
  pub connect_with_timeout :
      {Kernel : Type 0}
      → (Kernel → ℕ → Option Bool)
      → (Kernel → ℕ → ℕ)
      → (Kernel → ℕ → ℕ → Kernel)
      → Bool
      → FdManager Kernel
      → ℕ
      → ℕ
      → W
      → Reply × W
  unfolding connect_waiting
  connect_with_timeout fstat get_flags set_flags hook_enable m fd timeout_ms w =
      if not hook_enable then o.call w else elim (known fstat get_flags set_flags fd m) [
        | none ↦ (failed ebadf, w)
        | some a ↦
            let c = m.contexts a in
            if c.is_closed
            then (failed ebadf, w)
            else if not c.is_socket
            then o.call w
            else if c.user_nonblock
            then o.call w
            else connect_waiting timeout_ms w
      ]
