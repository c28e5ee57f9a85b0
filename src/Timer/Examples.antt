-- ===== src/Timer/Examples.antt =====
-- mingfwq/timer.cpp on a manager with two timers: at address 7 a recurring one of period 10 that
-- is due at 40, at address 5 one that is due at 60.
use mingfwq.Prelude.{ℕ, ◌+◌, ◌≤◌, ◌<◌, ◌^◌, ◌≡◌, ◌≢◌, refl, arith, true, false, none, some, [], ◌∷◌}
use mingfwq.Timer.{
  Timer, Heap, Manager, update, get_next_timer, list_expired_cb, has_timer, expire, lower_bound,
  skip_equal, rearm, rearmed, insert,
}
use mingfwq.Timer.Order.{elem}
use mingfwq.Timer.Invariant.{IsValid}
use mingfwq.Timer.Expiry.{Expired, list_expired_cb-IsValid}
use mingfwq.Timer.Next.{list_expired_cb-get_next_timer}

abbrev dead : Timer
dead = record { recurring = false; ms = 0; next = 0; cb = none }

abbrev every_ten : Timer
every_ten = record { recurring = true; ms = 10; next = 40; cb = some 1 }

abbrev once : Timer
once = record { recurring = false; ms = 20; next = 60; cb = some 2 }

abbrev objects : Heap
objects = update (update (λ b. dead) 7 every_ten) 5 once

abbrev two_timers : Manager
two_timers = record { heap = objects; timers = 7 ∷ 5 ∷ []; tickled = false }

two_timers-IsValid : IsValid two_timers
two_timers-IsValid = record { sorted = ((refl, tt), (tt, tt)); armed = λ b. ground arith }

-- The callbacks at 45, and the set after that: the recurring timer is due at 55.
expired_at_45 :
    ((list_expired_cb 45 100 two_timers).0 ≡ some 1 ∷ [])
    × ((list_expired_cb 45 100 two_timers).1.timers ≡ 7 ∷ 5 ∷ [])
    × (((list_expired_cb 45 100 two_timers).1.heap 7).next ≡ 55)
unfolding list_expired_cb has_timer expire lower_bound skip_equal rearm rearmed insert
expired_at_45 = (refl, refl, refl)

list_expired_cb-IsValid_example : Expired 45 two_timers (list_expired_cb 45 100 two_timers)
list_expired_cb-IsValid_example = list_expired_cb-IsValid 45 100 two_timers two_timers-IsValid

two_timers_periods :
    (b : ℕ) → (objects b).recurring ≡ true → (1 ≤ (objects b).ms) × (45 + (objects b).ms < 2 ^ 64)
two_timers_periods b e = ground (arith, e)

list_expired_cb-get_next_timer_example :
    ((b : ℕ)
      → elem b (list_expired_cb 45 100 two_timers).1.timers ≡ true
      → 45 < ((list_expired_cb 45 100 two_timers).1.heap b).next)
    × ((get_next_timer 45 (list_expired_cb 45 100 two_timers).1).0 ≢ 0)
list_expired_cb-get_next_timer_example =
    list_expired_cb-get_next_timer 45 100 two_timers two_timers-IsValid two_timers_periods
