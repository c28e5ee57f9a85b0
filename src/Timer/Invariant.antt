-- ===== src/Timer/Invariant.antt =====
-- TimerManager of mingfwq/timer.cpp between two calls: its set is in order, and holds exactly the
-- timers with a callback. cancel, refresh, reset and addTimer keep this.
use mingfwq.Prelude.{
  ℕ, ◌≡◌, refl, ◌∙◌, arith, Bool, true, false, not, ◌&&◌, inl, inr, none, some, List, [], ◌∷◌, ◌==◌,
  if◌then◌else◌, Bool-cases,
}
use mingfwq.Timer.{
  Timer, Heap, Manager, insert, find_erase, update, is_set, is_first, add64, sub64, cancel, refresh,
  reset, add_timer, add_timer_locked,
}
use mingfwq.Timer.Order.{
  IsSorted, elem, elem-insert, insert-IsSorted, find_erase-some, IsSorted-update,
}

pub record IsValid (m : Manager) : Type 0 where
  pub sorted : IsSorted m.heap m.timers
  pub armed : (b : ℕ) → elem b m.timers ≡ is_set (m.heap b).cb

-- An armed timer can be taken out, and then nothing that is left refers to it.
taken_out :
    {m : Manager} (a : ℕ)
    → IsValid m
    → is_set (m.heap a).cb ≡ true
    → (rest : List ℕ) × (find_erase m.heap a m.timers ≡ some rest)
      × IsSorted m.heap rest
      × ((b : ℕ) → elem b rest ≡ (if a == b then false else is_set (m.heap b).cb))
taken_out {m} a v e =
    let (rest, found, sorted, members) =
      find_erase-some m.heap a m.timers v.sorted (v.armed a ∙ e) in
    (rest, found, sorted, λ b. ground (arith, members b, v.armed b))

-- The comparator reads the due times alone.
find_erase_same_next :
    (h h' : Heap) (a : ℕ) (ts : List ℕ)
    → ((b : ℕ) → (h' b).next ≡ (h b).next)
    → find_erase h' a ts ≡ find_erase h a ts
unfolding find_erase
find_erase_same_next h h' a [] same = refl
find_erase_same_next h h' a (t ∷ ts) same =
    rw (same a, same t, find_erase_same_next h h' a ts same) refl

update_here : (a : ℕ) (h : Heap) → (update h a (record (h a) { cb = none }) a).cb ≡ none
update_here a h = ground arith

abbrev disarm : Manager → ℕ → Heap
disarm m a = update m.heap a (record (m.heap a) { cb = none })

-- Put back with a new due time.
put_back :
    (m : Manager) (a : ℕ) (t : Timer) (rest : List ℕ) (tickled : Bool)
    → is_set t.cb ≡ true
    → IsSorted m.heap rest
    → ((b : ℕ) → elem b rest ≡ (if a == b then false else is_set (m.heap b).cb))
    → IsValid (record m {
      heap = update m.heap a t;
      timers = insert (update m.heap a t) a rest;
      tickled = tickled;
    })
put_back m a t rest tickled e s members = record {
  sorted =
      insert-IsSorted (update m.heap a t) a rest
        (IsSorted-update m.heap a t rest (ground (arith, members a)) s);
  armed = λ b. elem-insert (update m.heap a t) a b rest ∙ ground (arith, members b);
}

-- cancel is never undefined on a valid manager. It answers whether the timer was armed, takes it
-- out of the set, keeps every other one, and a second cancel answers false.
pub cancel-IsValid :
    (a : ℕ) (m : Manager)
    → IsValid m
    → (m' : Manager) × (cancel a m ≡ some (is_set (m.heap a).cb, m'))
      × IsValid m'
      × ((b : ℕ) → elem b m'.timers ≡ (if a == b then false else elem b m.timers))
      × (cancel a m' ≡ some (false, m'))
unfolding cancel
cancel-IsValid a m v = elim (Bool-cases (is_set (m.heap a).cb)) [
  | inl e ↦
      let (rest, found, sorted, members) = taken_out a v e in
      let found' : find_erase (disarm m a) a m.timers ≡ some rest =
        find_erase_same_next m.heap (disarm m a) a m.timers (λ b. ground arith) ∙ found in
      (
        record m { heap = disarm m a; timers = rest },
        rw (e, found') refl,
        record {
          sorted = IsSorted-update m.heap a _ rest (ground (arith, members a)) sorted;
          armed = λ b. members b ∙ (ground arith);
        },
        λ b. members b ∙ ground (arith, v.armed b),
        rw (update_here a m.heap) refl,
      )
  | inr e ↦ (m, rw e refl, v, λ b. ground (arith, v.armed b, e), rw e refl)
]

-- refresh keeps the manager valid and answers whether the timer is armed; an armed one becomes
-- due one period from now, one without a callback is left alone, and the set keeps its members.
pub refresh-IsValid :
    (now a : ℕ) (m : Manager)
    → IsValid m
    → IsValid (refresh now a m).1
      × ((refresh now a m).0 ≡ is_set (m.heap a).cb)
      × ((b : ℕ) → elem b (refresh now a m).1.timers ≡ elem b m.timers)
      × (((refresh now a m).1.heap a).next
          ≡ (if is_set (m.heap a).cb then add64 now (m.heap a).ms else (m.heap a).next))
unfolding refresh
refresh-IsValid now a m v = elim (Bool-cases (is_set (m.heap a).cb)) [
  | inl e ↦
      let (rest, found, sorted, members) = taken_out a v e in
      let t : Timer = record (m.heap a) { next = add64 now (m.heap a).ms } in
      rw (e, found)
        (
          put_back m a t rest m.tickled e sorted members,
          refl,
          λ b. elem-insert (update m.heap a t) a b rest ∙ ground (arith, members b, v.armed b, e),
          ground arith,
        )
  | inr e ↦ rw e (v, refl, λ b. refl, refl)
]

-- Once the new timer is the first, the manager is marked as tickled, and the idle thread is woken
-- only if it was not marked before.
abbrev pub Wakes : ℕ → Manager → Bool → Manager → Type 0
Wakes a m woken m' =
    (is_first a m'.timers ≡ true → m'.tickled ≡ true)
    × (woken ≡ true → (m.tickled ≡ false) × (m'.tickled ≡ true))
    × (m.tickled ≡ true → m'.tickled ≡ true)

locked_Wakes : (a : ℕ) (m : Manager) → Wakes a m (add_timer_locked a m).0 (add_timer_locked a m).1
unfolding add_timer_locked
locked_Wakes a m = (λ p. ground (arith, p), λ p. ground (arith, p), λ p. ground (arith, p))

-- addTimer keeps the manager valid where the new object's address is no armed timer's; its timer
-- is in the set beside all others, due `ms` from now. When it comes first in the set, the manager
-- is tickled, and onTimerInsertedAtFront is called only if it was not tickled before.
pub add_timer-IsValid :
    (now a ms cb : ℕ) (recurring : Bool) (m : Manager)
    → IsValid m
    → is_set (m.heap a).cb ≡ false
    → IsValid (add_timer now a ms cb recurring m).1
      × ((b : ℕ)
          → elem b (add_timer now a ms cb recurring m).1.timers
            ≡ (if a == b then true else elem b m.timers))
      × (((add_timer now a ms cb recurring m).1.heap a).next ≡ add64 now ms)
      × Wakes a m (add_timer now a ms cb recurring m).0 (add_timer now a ms cb recurring m).1
unfolding add_timer add_timer_locked
add_timer-IsValid now a ms cb recurring m v fresh =
    let t : Timer = record { recurring = recurring; ms = ms; next = add64 now ms; cb = some cb } in
    (
      put_back m a t m.timers _ refl v.sorted (λ b. ground (arith, v.armed b, fresh)),
      λ b. elem-insert (update m.heap a t) a b m.timers,
      ground arith,
      locked_Wakes a (record m { heap = update m.heap a t }),
    )

-- reset keeps the manager valid and its members; it answers false, and changes nothing, for a
-- timer without a callback or when its period stays and the start does too. Otherwise the timer
-- is due `ms` from now, or from where its last period began.
pub reset-IsValid :
    (now a ms : ℕ) (from_now : Bool) (m : Manager)
    → IsValid m
    → let r = reset now a ms from_now m in
      IsValid r.2
      × ((b : ℕ) → elem b r.2.timers ≡ elem b m.timers)
      × (r.0 ≡ (is_set (m.heap a).cb && not ((ms == (m.heap a).ms) && not from_now)))
      × (r.0 ≡ false → r.2 ≡ m)
      × (r.0 ≡ true
          → (r.2.heap a).next
            ≡ add64 (if from_now then now else sub64 (m.heap a).next (m.heap a).ms) ms)
unfolding reset add_timer_locked
reset-IsValid now a ms from_now m v = elim (Bool-cases ((ms == (m.heap a).ms) && not from_now)) [
  | inl k ↦ rw k (v, λ b. refl, ground arith, λ p. refl, λ p. ground (arith, p))
  | inr k ↦ elim (Bool-cases (is_set (m.heap a).cb)) [
    | inr e ↦ rw (k, e) (v, λ b. refl, refl, λ p. refl, λ p. ground (arith, p))
    | inl e ↦
        let (rest, found, sorted, members) = taken_out a v e in
        let start = if from_now then now else sub64 (m.heap a).next (m.heap a).ms in
        let t : Timer = record (m.heap a) { ms = ms; next = add64 start ms } in
        rw (k, e, found)
          (
            put_back m a t rest _ e sorted members,
            λ b. elem-insert (update m.heap a t) a b rest ∙ ground (arith, members b, v.armed b, e),
            refl,
            λ p. ground (arith, p),
            λ p. ground arith,
          )
  ]
]

-- The callback of a timer that addTimer makes.
pub add_timer_cb :
    (now a ms cb : ℕ) (recurring : Bool) (m : Manager)
    → ((add_timer now a ms cb recurring m).1.heap a).cb ≡ some cb
unfolding add_timer add_timer_locked
add_timer_cb now a ms cb recurring m = ground arith
