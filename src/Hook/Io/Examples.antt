-- ===== src/Hook/Io/Examples.antt =====
-- do_io on a socket whose read is interrupted twice.
use mingfwq.Prelude.{ℕ, zero, suc, ◌≡◌, refl, arith, true, some}
use mingfwq.FdManager.{so_rcvtimeo}
use mingfwq.Hook.Samples.{stat, flags, set_flags, one_socket}
use mingfwq.Hook.Io.{Reply, value, failed, eintr, Waiting, do_io}
use mingfwq.Hook.Io.Interrupted.{Interrupted, answers, interrupted, do_io-Interrupted}

-- The world is how often the read is still interrupted.
abbrev read_soon : ℕ → Reply × ℕ
read_soon zero = (value 3, zero)
read_soon (suc n) = (failed eintr, n)

abbrev reading : Waiting ℕ
reading = record {
  call = read_soon;
  add_timer = λ ms w. (0, w);
  cancel_timer = λ t w. w;
  add_event = λ w. (true, w);
  hold = λ w. (0, w);
}

twice : Interrupted read_soon (value 3) 0 2 2
twice = interrupted 1 2 refl (interrupted 0 1 refl (answers 0 refl refl refl))

do_io-Interrupted_example :
    do_io reading stat flags set_flags 5 true one_socket 5 so_rcvtimeo 2 ≡ some (value 3, 0)
do_io-Interrupted_example =
    do_io-Interrupted reading stat flags set_flags 5 2 one_socket 5 0 so_rcvtimeo 2 0 (value 3) refl
      refl refl refl twice (omega arith)
