-- ===== src/FdManager/Examples.antt =====
-- The theorems on descriptors at a manager with the context of a socket.
use mingfwq.Prelude.{ℕ, ltb, ◌+◌, ◌≡◌, ◌≢◌, refl, Bool, true, Option, none, some}
use mingfwq.FdManager.{init, FdManager, make_fd_manager, entry, look, create, get}
use mingfwq.FdManager.Contexts.{IsValid, Extends, get-IsValid, get_race, make-IsValid}

-- Descriptors below 10 are sockets. A kernel is the number of calls that set flags.
abbrev stat : ℕ → ℕ → Option Bool
stat k fd = some (ltb fd 10)

abbrev flags : ℕ → ℕ → ℕ
flags k fd = 2

abbrev set_flags : ℕ → ℕ → ℕ → ℕ
set_flags k fd f = k + 1

abbrev empty_table : FdManager ℕ
empty_table = make_fd_manager 0

get-IsValid_example :
    (a : ℕ) × (m' : FdManager ℕ) × (get stat flags set_flags (some 70) true empty_table
      ≡ some (some a, m'))
    × IsValid m'
    × (entry m'.datas 70 ≡ some a)
    × ((m'.contexts a).fd ≡ 70)
    × Extends 70 empty_table m'
    × ((b : ℕ) → entry empty_table.datas 70 ≡ some b → m' ≡ empty_table)
get-IsValid_example = get-IsValid stat flags set_flags 70 empty_table (make-IsValid 0)

get_race_example :
    (a : ℕ) × (b : ℕ) × (m₁ : FdManager ℕ) × (m₂ : FdManager ℕ) × (look 5 true empty_table ≡ none)
    × (create stat flags set_flags 5 empty_table ≡ some (some a, m₁))
    × (create stat flags set_flags 5 m₁ ≡ some (some b, m₂))
    × (a ≢ b)
    × ((j : ℕ) → entry m₂.datas j ≢ some a)
unfolding make_fd_manager
get_race_example = get_race stat flags set_flags 5 empty_table (make-IsValid 0) refl

-- A socket is made not to block.
socket_unblocked :
    elim (get stat flags set_flags (some 5) true empty_table) as (λ _. ℕ) [
      | none ↦ 0
      | some r ↦ r.1.kernel
    ]
    ≡ 1
unfolding get create init make_fd_manager look
socket_unblocked = refl
