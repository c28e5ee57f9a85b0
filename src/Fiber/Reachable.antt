-- ===== src/Fiber/Reachable.antt =====
-- The fibers of one thread of mingfwq/fiber.cpp over time: a scheduler's main fiber `m` starts
-- others, which stop again, in any order.
use mingfwq.Prelude.{
  ℕ, ◌≡◌, ◌≢◌, refl, sym, ap, ◌∙◌, subst, arith, true, false, Option, none, some, ◌==◌,
  if◌then◌else◌, inl, inr, Bool-cases, ==_iff,
}
use mathlib.Core.Option.{some-injective}
use mingfwq.Fiber.{set_state, hold, init, is_exec, Fiber, World, put, make_fiber, reset, swap_in}
use mingfwq.Fiber.Switch.{
  Ending, yields_ready, yields_hold, swaps_out, returns, throws, leave, stopped, swap_in_lem,
  leave_lem,
}

-- What a thread of Scheduler::run does with its fibers, where no fiber but the main one calls
-- swapIn and none uses call and back: the main fiber starts a fiber that has a stack; the running
-- one stops; the main fiber writes HOLD into another; a fiber is constructed at a free address; or
-- one that is not running is reset.
pub data Step (m : ℕ) (w w' : World) : Type 0 where
  starts :
      (a : ℕ)
      → a ≢ m
      → w.current ≡ some m
      → (w.fibers a).stack ≡ true
      → swap_in a w ≡ some w'
      → Step m w w'
  stops : (a x : ℕ) (e : Ending) → a ≢ m → w.current ≡ some a → leave e x w ≡ some w' → Step m w w'
  holds : (a : ℕ) → a ≢ m → w.current ≡ some m → w' ≡ set_state a hold w → Step m w w'
  makes :
      (a : ℕ) (cb : Option ℕ)
      → a ≢ m
      → (w.fibers a).stack ≡ false
      → w' ≡ make_fiber a cb w
      → Step m w w'
  resets : (a : ℕ) (cb : Option ℕ) → a ≢ m → reset a cb w ≡ some w' → Step m w w'

pub data Reach (m : ℕ) (w₀ : World) : World → Type 0 where
  here : Reach m w₀ w₀
  next : {w w' : World} → Reach m w₀ w → Step m w w' → Reach m w₀ w'

-- The flow of the main fiber is `l`, that of any other fiber is its own.
abbrev pub own_flow : ℕ → ℕ → ℕ → ℕ
own_flow m l a = if m == a then l else a

-- What holds of every fiber but the current one, `c`: its own flow is stored.
abbrev pub IsStored : ℕ → ℕ → ℕ → World → Type 0
IsStored m l c w =
    (b : ℕ) → b ≢ c → (b ≢ m → (w.fibers b).stack ≡ true) → (w.fibers b).flow ≡ own_flow m l b

-- The current fiber runs, in the state EXEC unless it is the main one, and has a stack.
pub record IsValid (m l : ℕ) (w : World) : Type 0 where
  pub main : w.main_fiber ≡ some m
  pub fiber : ℕ
  pub current : w.current ≡ some fiber
  pub running : w.running ≡ own_flow m l fiber
  pub executing :
      fiber ≢ m → ((w.fibers fiber).stack ≡ true) × (is_exec (w.fibers fiber).state ≡ true)
  pub stored : IsStored m l fiber w

stopped_fields :
    (e : Ending) (l : ℕ) (f : Fiber)
    → ((stopped e l f).flow ≡ l) × ((stopped e l f).stack ≡ f.stack)
stopped_fields yields_ready l f = (refl, refl)
stopped_fields yields_hold l f = (refl, refl)
stopped_fields swaps_out l f = (refl, refl)
stopped_fields returns l f = (refl, refl)
stopped_fields throws l f = (refl, refl)

swap_in_exec : (a : ℕ) (w : World) → is_exec (w.fibers a).state ≡ true → swap_in a w ≡ none
unfolding swap_in
swap_in_exec a w e = simp e

reset_only :
    (a : ℕ) (cb : Option ℕ) (w w' : World)
    → reset a cb w ≡ some w'
    → ((w.fibers a).stack ≡ true)
      × (is_exec (w.fibers a).state ≡ false)
      × (w' ≡ record w {
        fibers = put w.fibers a (record (w.fibers a) { cb = cb; flow = a; state = init });
      })
unfolding reset
reset_only a cb w w' e = ground (arith, e)

module _ {m l : ℕ} {w : World} (v : IsValid m l w) where
  starts-IsValid :
      (a : ℕ) (w' : World)
      → a ≢ m
      → w.current ≡ some m
      → (w.fibers a).stack ≡ true
      → swap_in a w ≡ some w'
      → IsValid m l w'
  starts-IsValid a w' n cur st e = elim (Bool-cases (is_exec (w.fibers a).state)) [
    | inl bad ↦ cc (sym e ∙ swap_in_exec a w bad)
    | inr fine ↦
        let (u, p, c, r, f, (k, k1, k2, k3)) = swap_in_lem a m w n v.main fine in
        let same : u ≡ w' = some-injective _ _ (sym p ∙ e) in
        let home : v.fiber ≡ m = some-injective _ _ (sym v.current ∙ cur) in
        let other : a ≢ v.fiber = λ q. n (q ∙ home) in
        subst (IsValid m l) same (record {
          main = k ∙ v.main;
          fiber = a;
          current = c;
          running = r ∙ v.stored a other (λ _. st);
          executing = λ _. ground (arith, f a, n, st);
          stored = λ b d st'. ground (arith, f b, d, st', home, v.running, v.stored b);
        })
  ]

  stops-IsValid :
      (a x : ℕ) (e : Ending) (w' : World)
      → a ≢ m
      → w.current ≡ some a
      → leave e x w ≡ some w'
      → IsValid m l w'
  stops-IsValid a x e w' n cur q =
      let (u, p, c, r, f, (k, k1, k2, k3)) = leave_lem e x a m w n v.main cur in
      let same : u ≡ w' = some-injective _ _ (sym p ∙ q) in
      let here : v.fiber ≡ a = some-injective _ _ (sym v.current ∙ cur) in
      subst (IsValid m l) same (record {
        main = k ∙ v.main;
        fiber = m;
        current = c;
        running = r ∙ v.stored m (λ q. n (sym (q ∙ here))) (λ d. absurd (d refl));
        executing = λ d. absurd (d refl);
        stored = λ b d st'. elim (Bool-cases (a == b)) [
          | inl z ↦
              let it : a ≡ b = (==_iff a b).0 z in
              let kept : u.fibers b ≡ stopped e w.running (w.fibers b) = f b ∙ rw z refl in
              ap (λ g. g.flow) kept
              ∙ (stopped_fields e w.running (w.fibers b)).0
              ∙ v.running
              ∙ ap (own_flow m l) (here ∙ it)
          | inr z ↦
              let kept : u.fibers b ≡ w.fibers b = f b ∙ rw z refl in
              ap (λ g. g.flow) kept
              ∙ v.stored b (λ q. ground (arith, q, here, z))
                  (λ q. ap (λ g. g.stack) (sym kept) ∙ st' q)
        ];
      })

  holds-IsValid : (a : ℕ) → w.current ≡ some m → IsValid m l (set_state a hold w)
  holds-IsValid a cur =
      let home : v.fiber ≡ m = some-injective _ _ (sym v.current ∙ cur) in
      record {
        main = v.main;
        fiber = v.fiber;
        current = v.current;
        running = v.running;
        executing = λ d. absurd (d home);
        stored = λ b d st. ground (arith, st, v.stored b d);
      }

  makes-IsValid :
      (a : ℕ) (cb : Option ℕ) → a ≢ m → (w.fibers a).stack ≡ false → IsValid m l (make_fiber a cb w)
  unfolding make_fiber
  makes-IsValid a cb n free =
      let other : v.fiber ≢ a =
        λ q. cc ((v.executing (λ z. n (sym q ∙ z))).0, ap (λ c. (w.fibers c).stack) q, free) in
      record {
        main = v.main;
        fiber = v.fiber;
        current = v.current;
        running = v.running;
        executing = λ d. ground (arith, other, v.executing d);
        stored = λ b d st. ground (arith, n, st, v.stored b d);
      }

  resets-IsValid :
      (a : ℕ) (cb : Option ℕ) (w' : World) → a ≢ m → reset a cb w ≡ some w' → IsValid m l w'
  resets-IsValid a cb w' n e =
      let (st, idle, same) = reset_only a cb w w' e in
      let other : v.fiber ≢ a = λ q.
        cc ((v.executing (λ z. n (sym q ∙ z))).1, ap (λ c. is_exec (w.fibers c).state) q, idle) in
      subst (IsValid m l) (sym same) (record {
        main = v.main;
        fiber = v.fiber;
        current = v.current;
        running = v.running;
        executing = λ d. ground (arith, other, v.executing d);
        stored = λ b d st'. ground (arith, n, st, st', v.stored b d);
      })

-- In every state that a thread reaches from a valid one, as long as only its main fiber calls
-- swapIn and writes HOLD, as Scheduler::run does, and none uses call and back: the current fiber is
-- the one whose flow runs, it is in the state EXEC unless it is the main one, and every other
-- fiber has its own flow stored, so that control is never resumed in a flow of another fiber.
pub Reach-IsValid : {m l : ℕ} {w₀ w : World} → IsValid m l w₀ → Reach m w₀ w → IsValid m l w
Reach-IsValid v here = v
Reach-IsValid v (next r (starts a n cur st e)) = starts-IsValid (Reach-IsValid v r) a _ n cur st e
Reach-IsValid v (next r (stops a x e n cur q)) = stops-IsValid (Reach-IsValid v r) a x e _ n cur q
Reach-IsValid {m} {l} v (next r (holds a n cur same)) =
    subst (IsValid m l) (sym same) (holds-IsValid (Reach-IsValid v r) a cur)
Reach-IsValid {m} {l} v (next r (makes a cb n free same)) =
    subst (IsValid m l) (sym same) (makes-IsValid (Reach-IsValid v r) a cb n free)
Reach-IsValid v (next r (resets a cb n e)) = resets-IsValid (Reach-IsValid v r) a cb _ n e
