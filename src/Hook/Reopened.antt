-- ===== src/Hook/Reopened.antt =====
-- close and socket of mingfwq/hook.cpp: what the table keeps of a descriptor that is closed.
use mingfwq.Prelude.{ℕ, ◌≡◌, refl, ap, ◌∙◌, Bool, inl, inr, Option, none, some, Bool-cases}
use mingfwq.FdManager.{FdManager, entry}
use mingfwq.FdManager.Contexts.{IsValid, get-IsValid, get_only}
use mingfwq.IoManager.{Op, Mask}
use mingfwq.Hook.{Process, known, socket, close}

-- A valid table is so whatever the kernel is.
IsValid-kernel :
    {Kernel : Type 0} (m : FdManager Kernel) (k : Kernel)
    → IsValid m
    → IsValid (record m { kernel = k })
IsValid-kernel m k v = record { room = v.room; made = v.made; sound = v.sound }

pub known_lem :
    {Kernel : Type 0} (fstat : Kernel → ℕ → Option Bool) (get_flags : Kernel → ℕ → ℕ)
    (set_flags : Kernel → ℕ → ℕ → Kernel) (fd : ℕ) (m : FdManager Kernel)
    → known fstat get_flags set_flags fd m ≡ entry m.datas fd
known_lem fstat get_flags set_flags fd m =
    ap (λ o. elim o as (λ _. Option ℕ) [ none ↦ none | some r ↦ r.0 ])
      (get_only fstat get_flags set_flags fd m)

module _ {Kernel Epoll : Type 0} (fstat : Kernel → ℕ → Option Bool) (get_flags : Kernel → ℕ → ℕ)
    (set_flags : Kernel → ℕ → ℕ → Kernel) where
  close_known :
      (close_f : Kernel → ℕ → Bool × Kernel) (epoll_ctl : Epoll → Op → ℕ → Mask → Bool × Epoll)
      (fd a : ℕ) (p : Process Kernel Epoll)
      → entry p.fds.datas fd ≡ some a
      → close fstat get_flags set_flags close_f epoll_ctl fd p
        ≡ some (
          (close_f p.fds.kernel fd).0,
          record p { fds = record p.fds { kernel = (close_f p.fds.kernel fd).1 } },
        )
  unfolding close
  close_known close_f epoll_ctl fd a p e = elim (Bool-cases p.hook_enable) [
    | inl h ↦ simp (close, h) refl
    | inr h ↦ simp (close, h, known_lem fstat get_flags set_flags fd p.fds, e) refl
  ]

  socket_known :
      (opens : Kernel → Option ℕ × Kernel) (fd a : ℕ) (p : Process Kernel Epoll)
      → IsValid p.fds
      → entry p.fds.datas fd ≡ some a
      → (opens p.fds.kernel).0 ≡ some fd
      → (q : Process Kernel Epoll) × (socket fstat get_flags set_flags opens p ≡ some (some fd, q))
        × (q.fds.datas ≡ p.fds.datas)
        × (q.fds.contexts ≡ p.fds.contexts)
  unfolding socket
  socket_known opens fd a p v e o =
      let fds = record p.fds { kernel = (opens p.fds.kernel).1 } in
      elim (Bool-cases p.hook_enable) [
        | inr h ↦ (record p { fds = fds }, simp (socket, h, o) refl, refl, refl)
        | inl h ↦
            let (b, m, q, w, at, own, x, same) =
              get-IsValid fstat get_flags set_flags fd fds (IsValid-kernel p.fds _ v) in
            (
              record p { fds = m },
              simp (socket, h, o, q) refl,
              ap (λ n. n.datas) (same a e),
              ap (λ n. n.contexts) (same a e),
            )
      ]

  -- Where the table has a context for a descriptor, close of it, hooked or not, leaves the context
  -- there, and a socket that the system then gives the same number gets that old context, with
  -- the timeouts and flags of the descriptor that was closed.
  pub reopened_stale :
      (close_f : Kernel → ℕ → Bool × Kernel) (epoll_ctl : Epoll → Op → ℕ → Mask → Bool × Epoll)
      (opens : Kernel → Option ℕ × Kernel) (fd a : ℕ) (p : Process Kernel Epoll)
      → IsValid p.fds
      → entry p.fds.datas fd ≡ some a
      → (opens (close_f p.fds.kernel fd).1).0 ≡ some fd
      → (b : Bool) × (q : Process Kernel Epoll) × (r : Process Kernel Epoll) × (close fstat
            get_flags set_flags close_f epoll_ctl fd p
          ≡ some (b, q))
        × (socket fstat get_flags set_flags opens q ≡ some (some fd, r))
        × (entry r.fds.datas fd ≡ some a)
        × (r.fds.contexts a ≡ p.fds.contexts a)
  reopened_stale close_f epoll_ctl opens fd a p v e o =
      let q : Process Kernel Epoll = record p {
        fds = record p.fds { kernel = (close_f p.fds.kernel fd).1 };
      } in
      let (r, gives, datas, contexts) = socket_known opens fd a q (IsValid-kernel p.fds _ v) e o in
      (
        (close_f p.fds.kernel fd).0,
        q,
        r,
        close_known close_f epoll_ctl fd a p e,
        gives,
        ap (λ ds. entry ds fd) datas ∙ e,
        ap (λ h. h a) contexts,
      )
