-- ===== src/Timer/Next.antt =====
-- TimerManager::getNextTimer of mingfwq/timer.cpp: how long the idle thread may sleep.
use mingfwq.Prelude.{
  ℕ, ◌+◌, ◌-◌, ◌≤◌, ◌<◌, ◌^◌, ◌≡◌, ◌≢◌, refl, sym, subst, ◌∙◌, arith, true, false, ◌&&◌, ◌⊎◌, inl,
  inr, Option, List, [], ◌∷◌, ◌==◌, Bool-cases, ==_iff,
}
use mingfwq.Timer.{
  Timer, Heap, Manager, less, is_set, get_next_timer, no_timeout, list_expired_cb, rearmed,
}
use mingfwq.Timer.Order.{IsSorted, elem, All-elem}
use mingfwq.Timer.Invariant.{IsValid}
use mingfwq.Timer.Due.{is_due}
use mingfwq.Timer.Expiry.{list_expired_cb-IsValid}

-- The wait is that of a timer in the set, and no timer in the set has a shorter one.
abbrev pub IsLeastWait : ℕ → Heap → List ℕ → ℕ → Type 0
IsLeastWait now h ts wait =
    ((a : ℕ) × (elem a ts ≡ true) × (wait ≡ (h a).next - now))
    × ((b : ℕ) → elem b ts ≡ true → wait ≤ (h b).next - now)

-- With a timer in a valid manager, getNextTimer is the least time until one is due, 0 if one
-- already is; with none, it is the largest number. It clears the mark that the manager is
-- tickled and keeps the manager valid.
pub get_next_timer-IsLeastWait :
    (now : ℕ) (m : Manager)
    → IsValid m
    → (((m.timers ≡ []) × ((get_next_timer now m).0 ≡ no_timeout))
        ⊎ IsLeastWait now m.heap m.timers (get_next_timer now m).0)
      × IsValid (get_next_timer now m).1
      × ((get_next_timer now m).1.tickled ≡ false)
unfolding get_next_timer
get_next_timer-IsLeastWait now m v =
    (go m.timers v.sorted, record { sorted = v.sorted; armed = v.armed }, refl)
  where
    wait_of : List ℕ → ℕ
    wait_of ts = (get_next_timer now (record m { timers = ts })).0

    go :
        (ts : List ℕ)
        → IsSorted m.heap ts
        → ((ts ≡ []) × (wait_of ts ≡ no_timeout)) ⊎ IsLeastWait now m.heap ts (wait_of ts)
    go [] s = inl (refl, refl)
    go (t ∷ ts) s = inr (
      (t, ground arith, ground arith),
      λ b e. elim (Bool-cases (t == b)) [
        | inl f ↦ let same : t ≡ b = (==_iff t b).0 f in ground (arith, same)
        | inr f ↦
            let before : less m.heap t b ≡ true =
              All-elem (λ b. less m.heap t b ≡ true) b ts s.0 (ground (arith, e, f)) in
            ground (arith, before)
      ],
    )

rearmed_later :
    (now : ℕ) (t : Timer)
    → (t.recurring ≡ true → (1 ≤ t.ms) × (now + t.ms < 2 ^ 64))
    → is_set (rearmed now t).cb ≡ true
    → now < (rearmed now t).next
unfolding rearmed
rearmed_later now t period e = elim (Bool-cases t.recurring) [
  | inl f ↦ let (p, q) = period f in rw f (ground (arith, p, q))
  | inr f ↦ cc (rw f at e)
]

-- After listExpiredCb at a time `now`, no timer in the set is due by `now`, where each recurring
-- timer has a period of at least 1 that does not take `now` out of 64 bits: the next
-- getNextTimer at `now` is not 0.
pub list_expired_cb-get_next_timer :
    (now key : ℕ) (m : Manager)
    → IsValid m
    → ((b : ℕ) → (m.heap b).recurring ≡ true → (1 ≤ (m.heap b).ms) × (now + (m.heap b).ms < 2 ^ 64))
    → ((b : ℕ)
        → elem b (list_expired_cb now key m).1.timers ≡ true
        → now < ((list_expired_cb now key m).1.heap b).next)
      × ((get_next_timer now (list_expired_cb now key m).1).0 ≢ 0)
list_expired_cb-get_next_timer now key m v periods =
    (later, not_zero (get_next_timer-IsLeastWait now r.1 valid).0)
  where
    r : List (Option ℕ) × Manager
    r = list_expired_cb now key m

    valid : IsValid r.1
    valid = (list_expired_cb-IsValid now key m v).1

    later : (b : ℕ) → elem b r.1.timers ≡ true → now < (r.1.heap b).next
    later b e =
        let object = (list_expired_cb-IsValid now key m v).2 b in
        let set : is_set (r.1.heap b).cb ≡ true = sym (valid.armed b) ∙ e in
        elim (Bool-cases (elem b m.timers && is_due m.heap now b)) [
          | inl f ↦
              let same : r.1.heap b ≡ rearmed now (m.heap b) = object ∙ rw f refl in
              subst (λ t. now < t.next) (sym same)
                (rearmed_later now (m.heap b) (periods b)
                  (subst (λ t. is_set t.cb ≡ true) same set))
          | inr f ↦
              let same : r.1.heap b ≡ m.heap b = object ∙ rw f refl in
              let before : is_set (m.heap b).cb ≡ true = subst (λ t. is_set t.cb ≡ true) same set in
              subst (λ t. now < t.next) (sym same) (ground (arith, before, f, v.armed b))
        ]

    not_zero :
        ((r.1.timers ≡ []) × ((get_next_timer now r.1).0 ≡ no_timeout))
          ⊎ IsLeastWait now r.1.heap r.1.timers (get_next_timer now r.1).0
        → (get_next_timer now r.1).0 ≢ 0
    not_zero (inl e) z = ground (arith, e.1, z)
    not_zero (inr ((a, inside, wait), least)) z = ground (arith, later a inside, wait, z)
