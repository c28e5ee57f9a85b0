-- ===== src/Hook/Examples.antt =====
-- The theorems on hooked calls at a process with one socket.
use mingfwq.Prelude.{ℕ, ◌+◌, ◌≡◌, refl, Bool, true, Option, none, some}
use mingfwq.FdManager.{entry}
use mingfwq.IoManager.{Op, Mask}
use mingfwq.Hook.{Process, close, socket}
use mingfwq.Hook.Reopened.{reopened_stale}
use mingfwq.Hook.Samples.{stat, flags, set_flags, listener, one_socket, one_socket-IsValid}

abbrev close_one : ℕ → ℕ → Bool × ℕ
close_one k fd = (true, k + 1)

abbrev open_five : ℕ → Option ℕ × ℕ
open_five k = (some 5, k + 1)

abbrev epoll_ctl : ℕ → Op → ℕ → Mask → Bool × ℕ
epoll_ctl k op fd mask = (true, k)

abbrev process : Process ℕ ℕ
process = record { hook_enable = true; fds = one_socket; manager = none }

reopened_stale_example :
    (b : Bool) × (q : Process ℕ ℕ) × (r : Process ℕ ℕ) × (close stat flags set_flags close_one
        epoll_ctl 5 process
      ≡ some (b, q))
    × (socket stat flags set_flags open_five q ≡ some (some 5, r))
    × (entry r.fds.datas 5 ≡ some 0)
    × (r.fds.contexts 0 ≡ listener)
reopened_stale_example =
    reopened_stale stat flags set_flags close_one epoll_ctl open_five 5 0 process one_socket-IsValid
      refl refl
