-- ===== src/Timer.antt =====
-- mingfwq/timer.h and mingfwq/timer.cpp: timers and the set that orders them by due time.
--
-- A `Timer::ptr` is the address of an object in `heap`; `m_timers` is the list of the addresses
-- in the order of `Timer::Comparator`, which reads the objects. The clock is an argument `now`
-- of each call, GetCurrentMS(). Every call runs under the manager's lock, as one step.
-- A callback is a name, and `none` is the null `m_cb`. The result `none` of a call is undefined
-- behaviour. Times are uint64_t and wrap.
pub mod Order
pub mod Invariant
pub mod Due
pub mod Expiry
pub mod Next
mod Examples
use mingfwq.Prelude.{
  ℕ, zero, suc, ◌+◌, ◌-◌, ◌%◌, ◌^◌, Bool, true, false, not, ◌&&◌, Option, none, some, List, [], ◌∷◌,
  ◌++◌, ltb, leb, ◌==◌, if◌then◌else◌,
}

pub record Timer : Type 0 where
  pub recurring : Bool
  pub ms : ℕ
  pub next : ℕ
  pub cb : Option ℕ

abbrev pub Heap : Type 0
Heap = ℕ → Timer

pub record Manager : Type 0 where
  pub heap : Heap
  pub timers : List ℕ
  pub tickled : Bool

abbrev pub add64 : ℕ → ℕ → ℕ
add64 a b = (a + b) % 2 ^ 64

abbrev pub sub64 : ℕ → ℕ → ℕ
sub64 a b = (a + 2 ^ 64 - b) % 2 ^ 64

abbrev pub update : Heap → ℕ → Timer → Heap
update h a t b = if a == b then t else h b

abbrev pub is_set : Option ℕ → Bool
is_set none = false
is_set (some f) = true

-- Timer::Comparator on two objects.
abbrev pub less : Heap → ℕ → ℕ → Bool
less h a b =
    if ltb (h a).next (h b).next then true else if ltb (h b).next (h a).next then false else ltb a b

-- Timer::Comparator; `none` is a null pointer.
pub comparator : Heap → Option ℕ → Option ℕ → Bool
comparator h none none = false
comparator h none (some b) = true
comparator h (some a) none = false
comparator h (some a) (some b) = less h a b

-- m_timers.insert: a key that is there already stays.
pub insert : Heap → ℕ → List ℕ → List ℕ
insert h a [] = a ∷ []
insert h a (b ∷ bs) =
    if less h a b then a ∷ b ∷ bs else if less h b a then b ∷ insert h a bs else b ∷ bs

-- m_timers.find and erase at once: `none` when find returns end().
pub find_erase : Heap → ℕ → List ℕ → Option (List ℕ)
find_erase h a [] = none
find_erase h a (b ∷ bs) =
    let later = find_erase h a bs in
    if less h a b
    then none
    else if less h b a
    then elim later [ none ↦ none | some rest ↦ some (b ∷ rest) ]
    else some bs

-- `it == m_timers.begin()`
abbrev pub is_first : ℕ → List ℕ → Bool
is_first a [] = false
is_first a (b ∷ bs) = a == b

-- Timer::cancel. Erasing end() is undefined.
pub cancel : ℕ → Manager → Option (Bool × Manager)
cancel a m =
    let t = m.heap a in
    let h = update m.heap a (record t { cb = none }) in
    if is_set t.cb
    then elim (find_erase h a m.timers) [
      | none ↦ none
      | some rest ↦ some (true, record m { heap = h; timers = rest })
    ]
    else some (false, m)

-- Timer::refresh
pub refresh : ℕ → ℕ → Manager → Bool × Manager
refresh now a m =
    let t = m.heap a in
    let h = update m.heap a (record t { next = add64 now t.ms }) in
    if not (is_set t.cb) then (false, m) else elim (find_erase m.heap a m.timers) [
      | none ↦ (false, m)
      | some rest ↦ (true, record m { heap = h; timers = insert h a rest })
    ]

-- TimerManager::addTimer(val, lock): the state, and whether onTimerInsertedAtFront is called.
pub add_timer_locked : ℕ → Manager → Bool × Manager
add_timer_locked a m =
    let ts = insert m.heap a m.timers in
    let at_front = is_first a ts && not m.tickled in
    (at_front, record m { timers = ts; tickled = if at_front then true else m.tickled })

-- Timer::reset: the result, whether onTimerInsertedAtFront is called, and the state.
pub reset : ℕ → ℕ → ℕ → Bool → Manager → Bool × Bool × Manager
unfolding add_timer_locked
reset now a ms from_now m =
    let t = m.heap a in
    let start = if from_now then now else sub64 t.next t.ms in
    let h = update m.heap a (record t { ms = ms; next = add64 start ms }) in
    if (ms == t.ms) && not from_now
    then (false, false, m)
    else if not (is_set t.cb)
    then (false, false, m)
    else elim (find_erase m.heap a m.timers) [
      | none ↦ (false, false, m)
      | some rest ↦
          let r = add_timer_locked a (record m { heap = h; timers = rest }) in (true, r.0, r.1)
    ]

-- TimerManager::addTimer(ms, cb, recurring): the call of onTimerInsertedAtFront and the state.
-- `a` is the address that `new Timer` returns.
pub add_timer : ℕ → ℕ → ℕ → ℕ → Bool → Manager → Bool × Manager
unfolding add_timer_locked
add_timer now a ms cb recurring m =
    let t : Timer = record { recurring = recurring; ms = ms; next = add64 now ms; cb = some cb } in
    add_timer_locked a (record m { heap = update m.heap a t })

abbrev pub no_timeout : ℕ
no_timeout = 2 ^ 64 - 1

-- TimerManager::getNextTimer
pub get_next_timer : ℕ → Manager → ℕ × Manager
get_next_timer now m = (
  elim m.timers [
    | [] ↦ no_timeout
    | a ∷ rest ↦ if leb (m.heap a).next now then 0 else (m.heap a).next - now
  ],
  record m { tickled = false },
)

-- m_timers.lower_bound(now_timer): how far the set lies before a key of time `now` at the
-- address `key`, and the rest.
pub lower_bound : Heap → ℕ → ℕ → List ℕ → List ℕ × List ℕ
lower_bound h now key [] = ([], [])
lower_bound h now key (b ∷ bs) =
    let r = lower_bound h now key bs in
    if ltb (h b).next now
    then (b ∷ r.0, r.1)
    else if ltb now (h b).next
    then ([], b ∷ bs)
    else if ltb b key
    then (b ∷ r.0, r.1)
    else ([], b ∷ bs)

-- while(it != m_timers.end() && (*it)->m_next == now_ms) ++it;
pub skip_equal : Heap → ℕ → List ℕ → List ℕ × List ℕ
skip_equal h now [] = ([], [])
skip_equal h now (b ∷ bs) =
    let r = skip_equal h now bs in if (h b).next == now then (b ∷ r.0, r.1) else ([], b ∷ bs)

-- What the loop over `expired` makes of a timer.
pub rearmed : ℕ → Timer → Timer
rearmed now t = if t.recurring then record t { next = add64 now t.ms } else record t { cb = none }

-- The loop over `expired`: the callbacks, the heap and the set.
pub rearm : ℕ → List ℕ → Heap → List ℕ → List (Option ℕ) × Heap × List ℕ
rearm now [] h ts = ([], h, ts)
rearm now (a ∷ rest) h ts =
    let t = h a in
    let h' = update h a (rearmed now t) in
    let r = rearm now rest h' (if t.recurring then insert h' a ts else ts) in (t.cb ∷ r.0, r.1, r.2)

-- TimerManager::listExpiredCb under its write lock: `key` is the address of the temporary timer
-- of time `now`.
pub expire : ℕ → ℕ → Manager → List (Option ℕ) × Manager
expire now key m =
    let below = lower_bound m.heap now key m.timers in
    let equal = skip_equal m.heap now below.1 in
    let r = rearm now (below.0 ++ equal.0) m.heap equal.1 in
    (r.0, record m { heap = r.1; timers = r.2 })

pub has_timer : Manager → Bool
has_timer m = elim m.timers [ [] ↦ false | a ∷ rest ↦ true ]

-- TimerManager::listExpiredCb
pub list_expired_cb : ℕ → ℕ → Manager → List (Option ℕ) × Manager
unfolding has_timer expire
list_expired_cb now key m = if has_timer m then expire now key m else ([], m)
