-- ===== src/Hook/Io/Interrupted.antt =====
-- do_io of mingfwq/hook.cpp where the system call is interrupted.
use mingfwq.Prelude.{
  ℕ, zero, suc, ◌<◌, ◌≡◌, ap, ◌∙◌, refl, not, if◌then◌else◌, arith, Option, Bool, true, false, ◌||◌,
  some, ◌==◌,
}
use mingfwq.FdManager.{FdManager, TimeoutType, get_timeout, entry}
use mingfwq.Hook.Reopened.{known_lem}
use mingfwq.Hook.Io.{Reply, value, failed, refused, eintr, eagain, Waiting, retry, do_io}

abbrev pub is_transient : Reply → Bool
is_transient (failed e) = e == eintr || e == eagain
is_transient _ = false

-- From `w` the system call is interrupted `n` times, one call after the other, and then answers
-- `r`, which is no EINTR and no EAGAIN, in the world `w'`.
pub data Interrupted {W : Type 0} (call : W → Reply × W) (r : Reply) (w' : W) : ℕ → W → Type 0 where
  answers :
      (w : W)
      → (call w).0 ≡ r
      → (call w).1 ≡ w'
      → is_transient r ≡ false
      → Interrupted call r w' 0 w
  interrupted :
      (n : ℕ) (w : W)
      → (call w).0 ≡ failed eintr
      → Interrupted call r w' n (call w).1
      → Interrupted call r w' (suc n) w

waits :
    {A : Type 0} (closed is_socket nonblock : Bool) (bad plain hooked : A)
    → closed ≡ false
    → is_socket ≡ true
    → nonblock ≡ false
    → (if closed then bad else if not is_socket || nonblock then plain else hooked) ≡ hooked
waits closed is_socket nonblock bad plain hooked c s u = rw (c, s, u) refl

module _ {W : Type 0} (o : Waiting W) where
  retry_answers :
      (fuel to : ℕ) (w w' : W) (r : Reply)
      → (o.call w).0 ≡ r
      → (o.call w).1 ≡ w'
      → is_transient r ≡ false
      → retry o (suc fuel) to w ≡ some (r, w')
  unfolding retry
  retry_answers fuel to w w' (value n) e k h = rw (retry, e) (ap (λ v. some (value n, v)) k)
  retry_answers fuel to w w' refused e k h = rw (retry, e) (ap (λ v. some (refused, v)) k)
  retry_answers fuel to w w' (failed errno) e k h =
      let a : (errno == eintr) ≡ false = ground (arith, h) in
      let b : (errno == eagain) ≡ false = ground (arith, h) in
      rw (retry, e, a, b) (ap (λ v. some (failed errno, v)) k)

  retry-Interrupted :
      (fuel n to : ℕ) (w w' : W) (r : Reply)
      → Interrupted o.call r w' n w
      → n < fuel
      → retry o fuel to w ≡ some (r, w')
  unfolding retry
  retry-Interrupted zero n to w w' r i h = absurd (omega (arith, h))
  retry-Interrupted (suc fuel) zero to w w' r (answers _ e k q) h =
      retry_answers fuel to w w' r e k q
  retry-Interrupted (suc fuel) (suc n) to w w' r (interrupted _ _ e i) h =
      rw (retry, e) (retry-Interrupted fuel n to (o.call w).1 w' r i (omega (arith, h)))

  -- do_io of an open socket of the table, which its user wants to block, where hooks are
  -- enabled and the fuel is above `n`: where the system call is interrupted `n` times and then
  -- answers without EINTR and EAGAIN, do_io returns that answer in the world that these calls
  -- leave. It starts no timer, registers no event and does not give up the thread.
  pub do_io-Interrupted :
      {Kernel : Type 0} (fstat : Kernel → ℕ → Option Bool) (get_flags : Kernel → ℕ → ℕ)
      (set_flags : Kernel → ℕ → ℕ → Kernel) (fuel n : ℕ) (m : FdManager Kernel) (fd a : ℕ)
      (type : TimeoutType) (w w' : W) (r : Reply)
      → entry m.datas fd ≡ some a
      → (m.contexts a).is_closed ≡ false
      → (m.contexts a).is_socket ≡ true
      → (m.contexts a).user_nonblock ≡ false
      → Interrupted o.call r w' n w
      → n < fuel
      → do_io o fstat get_flags set_flags fuel true m fd type w ≡ some (r, w')
  unfolding do_io
  do_io-Interrupted fstat get_flags set_flags fuel n m fd a type w w' r k c s u i h =
      rw (do_io, known_lem fstat get_flags set_flags fd m, k)
        (waits _ _ _ _ _ _ c s u
          ∙ retry-Interrupted fuel n (get_timeout type (m.contexts a)) w w' r i h)
