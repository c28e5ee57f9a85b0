-- ===== src/Hook/Samples.antt =====
-- A table with one socket, for the runs of mingfwq/hook.cpp.
use mingfwq.Prelude.{
  ℕ, ◌<◌, ◌≡◌, ◌≢◌, refl, sym, ap, ◌∙◌, subst, arith, Bool, true, false, inl, inr, Option, some, [],
  ltb, ◌==◌, set, Bool-cases, ==_iff,
}
use mathlib.Core.Option.{some-injective}
use mingfwq.FdManager.{FdCtx, FdManager, entry, resize, no_timeout}
use mingfwq.FdManager.Table.{entry-set_other}
use mingfwq.FdManager.Contexts.{IsValid, entry_vacant}

-- A kernel is a number, of calls or of flags.
abbrev pub stat : ℕ → ℕ → Option Bool
stat k fd = some (ltb fd 10)

abbrev pub flags : ℕ → ℕ → ℕ
flags k fd = k

abbrev pub set_flags : ℕ → ℕ → ℕ → ℕ
set_flags k fd f = f

abbrev pub listener : FdCtx
listener = record {
  is_init = true;
  is_socket = true;
  sys_nonblock = true;
  user_nonblock = false;
  is_closed = false;
  fd = 5;
  recv_timeout = 3000;
  send_timeout = no_timeout;
}

abbrev pub one_socket : FdManager ℕ
one_socket = record {
  kernel = 0;
  contexts = λ a. listener;
  next = 1;
  datas = set (resize 64 []) 5 (some 0);
}

pub one_socket-IsValid : IsValid one_socket
one_socket-IsValid = record {
  room = omega arith;
  made = λ fd a e. elim (Bool-cases (fd == 5)) [
    | inl z ↦
        let here : fd ≡ 5 = (==_iff fd 5).0 z in
        let it : 0 ≡ a = some-injective _ _ (ap (entry one_socket.datas) (sym here) ∙ e) in
        subst (λ b. (b < 1) × (5 ≡ fd)) it (omega arith, sym here)
    | inr z ↦
        let away : 5 ≢ fd = λ q. ground (arith, q, z) in
        absurd (entry_vacant 64 fd a (sym (entry-set_other (resize 64 []) 5 fd (some 0) away) ∙ e))
  ];
  sound = λ a l. (refl, λ z. refl);
}
