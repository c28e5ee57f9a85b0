-- ===== src/Timer/Expiry.antt =====
-- TimerManager::listExpiredCb of mingfwq/timer.cpp: which callbacks it hands out, and what it
-- leaves in the set.
use mingfwq.Prelude.{
  ℕ, ◌≡◌, refl, sym, ap, subst, ◌∙◌, arith, Bool, true, false, not, ◌&&◌, inl, inr, Option, List,
  [], ◌∷◌, ◌==◌, if◌then◌else◌, Bool-cases, ==_iff,
}
use mingfwq.Timer.{
  Timer, Heap, Manager, insert, update, is_set, rearmed, rearm, expire, has_timer, list_expired_cb,
  lower_bound, skip_equal,
}
use mingfwq.Timer.Order.{
  IsSorted, elem, elem-insert, insert-IsSorted, IsSorted-update, not_elem-All,
}
use mingfwq.Timer.Invariant.{IsValid}
use mingfwq.Timer.Due.{
  is_due, due, pending, callbacks, elem-due, elem-pending, due-IsSorted, pending-IsSorted, taken,
  taken_lem,
}

callbacks-update :
    (h : Heap) (a : ℕ) (t : Timer) (xs : List ℕ)
    → elem a xs ≡ false
    → callbacks (update h a t) xs ≡ callbacks h xs
callbacks-update h a t [] e = refl
callbacks-update h a t (x ∷ xs) e =
    let differs : (a == x) ≡ false = ground (arith, e) in
    rw (differs, callbacks-update h a t xs (ground (arith, e))) refl

insert_if-IsSorted :
    (c : Bool) (h : Heap) (a : ℕ) (ts : List ℕ)
    → IsSorted h ts
    → IsSorted h (if c then insert h a ts else ts)
insert_if-IsSorted true h a ts s = insert-IsSorted h a ts s
insert_if-IsSorted false h a ts s = s

elem-insert_if :
    (c : Bool) (h : Heap) (a b : ℕ) (ts : List ℕ)
    → elem b (if c then insert h a ts else ts) ≡ (if c && a == b then true else elem b ts)
elem-insert_if true h a b ts = elem-insert h a b ts
elem-insert_if false h a b ts = refl

is_set-rearmed : (now : ℕ) (t : Timer) → is_set (rearmed now t).cb ≡ (t.recurring && is_set t.cb)
unfolding rearmed
is_set-rearmed now t = elim (Bool-cases t.recurring) [ inl e ↦ rw e refl | inr e ↦ rw e refl ]

-- The loop over `expired` midway: `xs` are still to come, and the set holds every other timer
-- with a callback.
record Midway (h : Heap) (xs ts : List ℕ) : Type 0 where
  sorted_left : IsSorted h xs
  sorted : IsSorted h ts
  members : (b : ℕ) → elem b ts ≡ (is_set (h b).cb && not (elem b xs))
  armed : (b : ℕ) → elem b xs ≡ true → is_set (h b).cb ≡ true

rearm-Midway :
    (now a : ℕ) (xs : List ℕ) (h : Heap) (ts : List ℕ)
    → Midway h (a ∷ xs) ts
    → let h' = update h a (rearmed now (h a)) in
      Midway h' xs (if (h a).recurring then insert h' a ts else ts)
rearm-Midway now a xs h ts w =
    let gone : elem a xs ≡ false = not_elem-All h a xs w.sorted_left.0 in
    let h' = update h a (rearmed now (h a)) in
    let out : elem a ts ≡ false = ground (arith, w.members a) in
    let set : is_set (h a).cb ≡ true = w.armed a (ground arith) in
    let s' : IsSorted h' ts = IsSorted-update h a (rearmed now (h a)) ts out w.sorted in
    record {
      sorted_left = IsSorted-update h a (rearmed now (h a)) xs gone w.sorted_left.1;
      sorted = insert_if-IsSorted (h a).recurring h' a ts s';
      members = λ b. elem-insert_if (h a).recurring h' a b ts ∙ elim (Bool-cases (a == b)) [
        | inl e ↦
            let same : a ≡ b = (==_iff a b).0 e in
            ground (arith, same, e, gone, out, set, is_set-rearmed now (h a))
        | inr e ↦ ground (arith, e, w.members b)
      ];
      armed = λ b e. ground (arith, e, gone, w.armed b);
    }

rearm_lem :
    (now : ℕ) (xs : List ℕ) (h : Heap) (ts : List ℕ)
    → Midway h xs ts
    → let r = rearm now xs h ts in
      (r.0 ≡ callbacks h xs)
      × IsSorted r.1 r.2
      × ((b : ℕ) → elem b r.2 ≡ is_set (r.1 b).cb)
      × ((b : ℕ) → r.1 b ≡ (if elem b xs then rearmed now (h b) else h b))
unfolding rearm
rearm_lem now [] h ts w = (refl, w.sorted, λ b. ground (arith, w.members b), λ b. refl)
rearm_lem now (a ∷ xs) h ts w =
    let gone : elem a xs ≡ false = not_elem-All h a xs w.sorted_left.0 in
    let h' = update h a (rearmed now (h a)) in
    let (p, q, r, s) =
      rearm_lem now xs h' (if (h a).recurring then insert h' a ts else ts)
        (rearm-Midway now a xs h ts w) in
    (
      ap (λ r. (h a).cb ∷ r) (p ∙ callbacks-update h a (rearmed now (h a)) xs gone),
      q,
      r,
      λ b. s b ∙ elim (Bool-cases (a == b)) [
        | inl e ↦ let same : a ≡ b = (==_iff a b).0 e in ground (arith, same, e, gone)
        | inr e ↦ ground (arith, e)
      ],
    )

-- The result `r` is that of taking from `m` the timers that are due by `now`.
abbrev pub Expired : ℕ → Manager → List (Option ℕ) × Manager → Type 0
Expired now m r =
    (r.0 ≡ callbacks m.heap (due m.heap now m.timers))
    × IsValid r.1
    × ((b : ℕ)
        → r.1.heap b
          ≡ (if elem b m.timers && is_due m.heap now b then rearmed now (m.heap b) else m.heap b))

expire_lem : (now key : ℕ) (m : Manager) → IsValid m → Expired now m (expire now key m)
unfolding expire
expire_lem now key m v =
    let cut = taken_lem m.heap now key m.timers v.sorted in
    let start : Midway m.heap (due m.heap now m.timers) (pending m.heap now m.timers) = record {
      sorted_left = due-IsSorted m.heap now m.timers v.sorted;
      sorted = pending-IsSorted m.heap now m.timers v.sorted;
      members = λ b.
          ground
            (arith, v.armed b, elem-due m.heap now b m.timers, elem-pending m.heap now b m.timers);
      armed = λ b e. ground (arith, e, v.armed b, elem-due m.heap now b m.timers);
    } in
    let (p, q, r, s) =
      rearm_lem now (taken m.heap now key m.timers).0 m.heap (taken m.heap now key m.timers).1
        (subst (λ c. Midway m.heap c.0 c.1) (sym cut) start) in
    (
      p ∙ ap (λ c. callbacks m.heap c.0) cut,
      record { sorted = q; armed = r },
      λ b. s b ∙ rw (ap (λ c. c.0) cut, elem-due m.heap now b m.timers) refl,
    )

-- The test before the write lock only saves work.
list_expired_cb-expire :
    (now key : ℕ) (h : Heap) (ts : List ℕ) (tickled : Bool)
    → let m : Manager = record { heap = h; timers = ts; tickled = tickled } in
      list_expired_cb now key m ≡ expire now key m
list_expired_cb-expire now key h [] tickled =
    unfold list_expired_cb has_timer expire lower_bound skip_equal rearm in refl
list_expired_cb-expire now key h (t ∷ ts) tickled = unfold list_expired_cb has_timer in refl

-- listExpiredCb hands out the callbacks of exactly the timers due by now, in the order of the
-- set, and keeps the manager valid: of those timers a recurring one is due one period from now,
-- and any other loses its callback; no other timer changes.
pub list_expired_cb-IsValid :
    (now key : ℕ) (m : Manager) → IsValid m → Expired now m (list_expired_cb now key m)
list_expired_cb-IsValid now key m v =
    subst (Expired now m) (sym (list_expired_cb-expire now key m.heap m.timers m.tickled))
      (expire_lem now key m v)
