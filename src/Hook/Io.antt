-- ===== src/Hook/Io.antt =====
-- do_io of mingfwq/hook.cpp, which read, write and their kin go through: a call that would block
-- waits for the descriptor in a fiber instead.
--
-- What do_io calls is an interface: the system call, the timers and events of the IOManager, and
-- YieldToHold, on a world of any type. The loop takes fuel for its calls of the system.
pub mod Interrupted
pub mod Connect
mod Examples
use mingfwq.Prelude.{
  ℕ, zero, suc, ◌+◌, ◌-◌, ◌^◌, Bool, true, false, not, ◌||◌, Option, none, some, ◌==◌,
  if◌then◌else◌,
}
use mingfwq.FdManager.{FdManager, TimeoutType, get_timeout, no_timeout}
use mingfwq.Hook.{known}

-- `failed` is -1 with its errno; `refused` is -1 with the errno that addEvent leaves.
pub data Reply : Type 0 where
  value : ℕ → Reply
  failed : ℕ → Reply
  refused : Reply

abbrev pub eintr : ℕ
eintr = 4

abbrev pub ebadf : ℕ
ebadf = 9

abbrev pub eagain : ℕ
eagain = 11

-- `call` is the system call; `add_timer` addConditionTimer, which gives the address of the timer;
-- `cancel_timer` Timer::cancel; `add_event` whether addEvent returns 0; `hold` YieldToHold until
-- the fiber is resumed, and what tinfo->cancelled then is.
pub record Waiting (W : Type 0) : Type 0 where
  pub call : W → Reply × W
  pub add_timer : ℕ → W → ℕ × W
  pub cancel_timer : ℕ → W → W
  pub add_event : W → Bool × W
  pub hold : W → ℕ × W

module _ {W : Type 0} (o : Waiting W) where
  -- The timer of a round, if there is a timeout.
  pub arm : ℕ → W → Option ℕ × W
  arm to w = let r = o.add_timer to w in if to == no_timeout then (none, w) else (some r.0, r.1)

  -- `if(timer){ timer->cancel(); }`
  pub disarm : Option ℕ → W → W
  disarm none w = w
  disarm (some t) w = o.cancel_timer t w

  -- From `retry` on.
  pub retry : ℕ → ℕ → W → Option (Reply × W)
  retry zero to w = none
  retry (suc fuel) to w =
      let r = o.call w in
      let t = arm to r.1 in
      let e = o.add_event t.1 in
      let h = o.hold e.1 in
      let w' = disarm t.0 h.1 in
      let again = retry fuel to r.1 in
      let resumed = retry fuel to w' in
      elim r.0 [
        | value n ↦ some (value n, r.1)
        | refused ↦ some (refused, r.1)
        | failed errno ↦
            if errno == eintr
            then again
            else if not (errno == eagain)
            then some (failed errno, r.1)
            else if not e.0
            then some (refused, disarm t.0 e.1)
            else if h.0 == 0
            then resumed
            else some (failed h.0, w')
      ]

  -- do_io
  pub do_io :
      {Kernel : Type 0}
      → (Kernel → ℕ → Option Bool)
      → (Kernel → ℕ → ℕ)
      → (Kernel → ℕ → ℕ → Kernel)
      → ℕ
      → Bool
      → FdManager Kernel
      → ℕ
      → TimeoutType
      → W
      → Option (Reply × W)
  do_io fstat get_flags set_flags fuel hook_enable m fd type w =
      let plain = some (o.call w) in
      if not hook_enable then plain else elim (known fstat get_flags set_flags fd m) [
        | none ↦ plain
        | some a ↦
            let c = m.contexts a in
            if c.is_closed
            then some (failed ebadf, w)
            else if not c.is_socket || c.user_nonblock
            then plain
            else retry fuel (get_timeout type c) w
      ]
