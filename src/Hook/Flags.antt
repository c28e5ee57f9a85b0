-- ===== src/Hook/Flags.antt =====
-- fcntl with F_SETFL of mingfwq/hook.cpp on a socket.
use mingfwq.Prelude.{ℕ, ◌-◌, ◌≡◌, refl, arith, Bool, true, false, Option, some, ◌==◌, bit_and}
use mingfwq.FdManager.{FdManager, entry, set_user_nonblock, o_nonblock}
use mingfwq.Hook.{fcntl_setfl}
use mingfwq.Hook.Reopened.{known_lem}

module _ {Kernel : Type 0} (fstat : Kernel → ℕ → Option Bool) (get_flags : Kernel → ℕ → ℕ)
    (set_flags : Kernel → ℕ → ℕ → Kernel) where
  -- F_SETFL without O_NONBLOCK on an open socket that the table knows passes the flags on as they
  -- are, so that the system blocks on the descriptor, while the context keeps that it does not.
  pub fcntl_setfl_blocks :
      (fd a arg : ℕ) (m : FdManager Kernel)
      → entry m.datas fd ≡ some a
      → (m.contexts a).is_closed ≡ false
      → (m.contexts a).is_socket ≡ true
      → bit_and arg o_nonblock ≡ 0
      → let m' = fcntl_setfl fstat get_flags set_flags fd arg m in
        (m'.kernel ≡ set_flags m.kernel fd arg)
        × ((m'.contexts a).sys_nonblock ≡ (m.contexts a).sys_nonblock)
        × ((m'.contexts a).user_nonblock ≡ false)
  unfolding fcntl_setfl set_user_nonblock
  fcntl_setfl_blocks fd a arg m e closed socket plain =
      let same : (a == a) ≡ true = ground arith in
      let zero_left : arg - 0 ≡ arg = omega arith in
      rw
        (
          fcntl_setfl,
          known_lem fstat get_flags set_flags fd m,
          e,
          closed,
          socket,
          plain,
          same,
          zero_left,
        )
        (refl, refl, refl)
