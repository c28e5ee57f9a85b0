-- ===== src/FdManager.antt =====
-- mingfwq/fd_manager.h and mingfwq/fd_manager.cpp: what is known of the open descriptors.
--
-- A FdCtx is shared, so that it is at an address and the table holds addresses; `next` is the
-- address of the next one. `fstat` answers whether the descriptor is a socket, `none` for -1;
-- `get_flags` and `set_flags` are fcntl with F_GETFL and F_SETFL, flags as the bits of the int.
-- A descriptor is not negative, and `none` is -1. The result `none` is an access out of bounds.
pub mod Table
pub mod Contexts
mod Examples
use mingfwq.Prelude.{
  ℕ, zero, suc, ◌+◌, ◌-◌, ◌*◌, ◌/◌, ◌^◌, Bool, true, false, not, ◌||◌, Option, none, some, List, [],
  ◌∷◌, ◌++◌, ltb, leb, ◌==◌, if◌then◌else◌, length, take, replicate, set, bit_and, bit_or,
}

pub record FdCtx : Type 0 where
  pub is_init : Bool
  pub is_socket : Bool
  pub sys_nonblock : Bool
  pub user_nonblock : Bool
  pub is_closed : Bool
  pub fd : ℕ
  pub recv_timeout : ℕ
  pub send_timeout : ℕ

pub record FdManager (Kernel : Type 0) : Type 0 where
  pub kernel : Kernel
  pub contexts : ℕ → FdCtx
  pub next : ℕ
  pub datas : List (Option ℕ)

-- (uint64_t)-1
abbrev pub no_timeout : ℕ
no_timeout = 2 ^ 64 - 1

-- O_NONBLOCK of Linux.
abbrev pub o_nonblock : ℕ
o_nonblock = 2048

-- The members as the constructor initializes them.
abbrev pub blank : ℕ → FdCtx
blank fd = record {
  is_init = false;
  is_socket = false;
  sys_nonblock = false;
  user_nonblock = false;
  is_closed = false;
  fd = fd;
  recv_timeout = no_timeout;
  send_timeout = no_timeout;
}

-- The type argument of setTimeout: SO_RCVTIMEO or another.
pub data TimeoutType : Type 0 where
  so_rcvtimeo : TimeoutType
  so_sndtimeo : TimeoutType

-- FdCtx::setTimeout
pub set_timeout : TimeoutType → ℕ → FdCtx → FdCtx
set_timeout so_rcvtimeo v c = record c { recv_timeout = v }
set_timeout so_sndtimeo v c = record c { send_timeout = v }

-- FdCtx::getTimeout
pub get_timeout : TimeoutType → FdCtx → ℕ
get_timeout so_rcvtimeo c = c.recv_timeout
get_timeout so_sndtimeo c = c.send_timeout

-- setUserNonblock and setSysNonblock, which are the same function.
unfoldable pub set_user_nonblock : Bool → FdCtx → FdCtx
set_user_nonblock v c = record c { user_nonblock = v }

-- m_datas[fd], where out of the vector is like a null pointer.
abbrev pub entry : List (Option ℕ) → ℕ → Option ℕ
entry [] i = none
entry (d ∷ ds) zero = d
entry (d ∷ ds) (suc i) = entry ds i

-- m_datas.resize(n)
abbrev pub resize : ℕ → List (Option ℕ) → List (Option ℕ)
resize n ds = take n ds ++ replicate (n - length ds) none

abbrev pub is_set : Option ℕ → Bool
is_set none = false
is_set (some a) = true

-- FdManager::FdManager
pub make_fd_manager : {Kernel : Type 0} → Kernel → FdManager Kernel
make_fd_manager k = record { kernel = k; contexts = blank; next = 0; datas = resize 64 [] }

-- The part of get under the read lock: the answer, or `none` to go on.
pub look : {Kernel : Type 0} → ℕ → Bool → FdManager Kernel → Option (Option ℕ)
look fd auto_create m =
    let found = entry m.datas fd in
    if leb (length m.datas) fd
    then if auto_create then none else some none
    else if is_set found || not auto_create
    then some found
    else none

module _ {Kernel : Type 0} (fstat : Kernel → ℕ → Option Bool) (get_flags : Kernel → ℕ → ℕ)
    (set_flags : Kernel → ℕ → ℕ → Kernel) where
  abbrev pub is_sock : Kernel → ℕ → Bool
  is_sock k fd = elim (fstat k fd) [ none ↦ false | some socket ↦ socket ]

  -- The calls of fcntl in init.
  abbrev pub unblock : ℕ → Kernel → Kernel
  unblock fd k =
      let flags = get_flags k fd in
      if bit_and flags o_nonblock == 0 then set_flags k fd (bit_or flags o_nonblock) else k

  -- FdCtx::init
  pub init : FdCtx → Kernel → Bool × FdCtx × Kernel
  init c k =
      let found : Bool = elim (fstat k c.fd) [ none ↦ false | some socket ↦ true ] in
      let socket = is_sock k c.fd in
      if c.is_init then (true, c, k) else (
        found,
        record c {
          recv_timeout = no_timeout;
          send_timeout = no_timeout;
          is_init = found;
          is_socket = socket;
          sys_nonblock = socket;
          user_nonblock = false;
          is_closed = false;
        },
        if socket then unblock c.fd k else k,
      )

  -- The part of get under the write lock.
  pub create : ℕ → FdManager Kernel → Option (Option ℕ × FdManager Kernel)
  unfolding init
  create fd m =
      let (b, c, k) = init (blank fd) m.kernel in
      let datas = if leb (length m.datas) fd then resize (fd * 3 / 2) m.datas else m.datas in
      if ltb fd (length datas)
      then some (
        some m.next,
        record {
          kernel = k;
          contexts = λ a. if a == m.next then c else m.contexts a;
          next = m.next + 1;
          datas = set datas fd (some m.next);
        },
      )
      else none

  -- FdManager::get
  pub get : Option ℕ → Bool → FdManager Kernel → Option (Option ℕ × FdManager Kernel)
  get none auto_create m = some (none, m)
  get (some fd) auto_create m = elim (look fd auto_create m) [
    | some found ↦ some (found, m)
    | none ↦ create fd m
  ]

-- FdManager::del
pub del : {Kernel : Type 0} → ℕ → FdManager Kernel → FdManager Kernel
del fd m = if leb (length m.datas) fd then m else record m { datas = set m.datas fd none }
