-- ===== src/Fiber/Switch.antt =====
-- How a fiber of mingfwq/fiber.cpp gives up the thread, and which flow goes on after each switch.
use mingfwq.Prelude.{
  ℕ, ◌≡◌, ◌≢◌, refl, ◌∙◌, arith, true, false, ◌||◌, Option, none, some, ◌==◌, if◌then◌else◌,
}
use mingfwq.Fiber.{
  State, init, hold, exec, term, ready, except, is_exec, is_over, is_init, Fiber, World, put,
  conclude, set_state, swap_context, make_fiber, reset, swap_in, swap_out, get_this, yield_to_ready,
  yield_to_hold, main_func,
}

-- The ways in which a fiber that swapIn started stops: the two yields, the bare swapOut of
-- IOManager::idle, and MainFunc behind a callback that returns or throws.
pub data Ending : Type 0 where
  yields_ready yields_hold swaps_out returns throws : Ending

-- `x` is where GetThis would allocate.
pub leave : Ending → ℕ → World → Option World
leave yields_ready x w = yield_to_ready x w
leave yields_hold x w = yield_to_hold x w
leave swaps_out x w = let r = get_this x w in swap_out r.0 r.1
leave returns x w = main_func false x w
leave throws x w = main_func true x w

-- The state that it leaves the fiber in.
abbrev pub after : Ending → State
after yields_ready = ready
after yields_hold = hold
after swaps_out = exec
after returns = term
after throws = except

-- What a switch leaves alone.
abbrev pub Keeps : World → World → Type 0
Keeps w w' =
    (w'.main_fiber ≡ w.main_fiber)
    × (w'.thread_fiber ≡ w.thread_fiber)
    × (w'.last_id ≡ w.last_id)
    × (w'.count ≡ w.count)

-- swapIn of a fiber that is not the main one: it runs from where it was, and the flow that called
-- swapIn is stored in the main fiber.
pub swap_in_lem :
    (a m : ℕ) (w : World)
    → a ≢ m
    → w.main_fiber ≡ some m
    → is_exec (w.fibers a).state ≡ false
    → (w' : World) × (swap_in a w ≡ some w')
      × (w'.current ≡ some a)
      × (w'.running ≡ (w.fibers a).flow)
      × ((b : ℕ)
          → w'.fibers b ≡ (
              if m == b
              then record (w.fibers b) { flow = w.running }
              else if a == b
              then record (w.fibers b) { state = exec }
              else w.fibers b))
      × Keeps w w'
unfolding swap_in
swap_in_lem a m w n e s = (
  swap_context m a (set_state a exec (record w { current = some a })),
  simp (s, e),
  refl,
  ground (arith, n),
  λ b. ground (arith, n),
  (refl, refl, refl, refl),
)

-- What leave does to the fiber itself.
abbrev pub stopped : Ending → ℕ → Fiber → Fiber
stopped returns l f = record f { state = term; cb = none; flow = l }
stopped swaps_out l f = record f { flow = l }
stopped e l f = record f { state = after e; flow = l }

swap_out_lem :
    (a m : ℕ) (w : World)
    → a ≢ m
    → w.main_fiber ≡ some m
    → (w' : World) × (swap_out a w ≡ some w')
      × (w'.current ≡ some m)
      × (w'.running ≡ (w.fibers m).flow)
      × ((b : ℕ)
          → w'.fibers b ≡ (if a == b then record (w.fibers b) { flow = w.running } else w.fibers b))
      × Keeps w w'
unfolding swap_out
swap_out_lem a m w n e = (
  swap_context a m (record w { current = some m }),
  rw e refl,
  refl,
  ground (arith, n),
  λ b. ground (arith, n),
  (refl, refl, refl, refl),
)

pub get_this_current : (x a : ℕ) (w : World) → w.current ≡ some a → get_this x w ≡ (a, w)
unfolding get_this
get_this_current x a w e = ground (arith, e)

-- The current fiber, not the main one, stops: the flow stored in the main fiber goes on, and the
-- fiber keeps the flow that stopped, in the state that its way of stopping gives.
pub leave_lem :
    (e : Ending) (x a m : ℕ) (w : World)
    → a ≢ m
    → w.main_fiber ≡ some m
    → w.current ≡ some a
    → (w' : World) × (leave e x w ≡ some w')
      × (w'.current ≡ some m)
      × (w'.running ≡ (w.fibers m).flow)
      × ((b : ℕ) → w'.fibers b ≡ (if a == b then stopped e w.running (w.fibers b) else w.fibers b))
      × Keeps w w'
unfolding leave yield_to_ready yield_to_hold main_func
leave_lem yields_ready x a m w n main cur =
    let (w', p, c, r, f, k) = swap_out_lem a m (set_state a ready w) n main in
    (w', rw (get_this_current x a w cur) p, c, r ∙ ground (arith, n), λ b. f b ∙ ground arith, k)
leave_lem yields_hold x a m w n main cur =
    let (w', p, c, r, f, k) = swap_out_lem a m (set_state a hold w) n main in
    (w', rw (get_this_current x a w cur) p, c, r ∙ ground (arith, n), λ b. f b ∙ ground arith, k)
leave_lem swaps_out x a m w n main cur =
    let (w', p, c, r, f, k) = swap_out_lem a m w n main in
    (w', rw (get_this_current x a w cur) p, c, r, f, k)
leave_lem returns x a m w n main cur =
    let (w', p, c, r, f, k) = swap_out_lem a m (conclude false a w) n main in
    (w', rw (get_this_current x a w cur) p, c, r ∙ ground (arith, n), λ b. f b ∙ ground arith, k)
leave_lem throws x a m w n main cur =
    let (w', p, c, r, f, k) = swap_out_lem a m (conclude true a w) n main in
    (w', rw (get_this_current x a w cur) p, c, r ∙ ground (arith, n), λ b. f b ∙ ground arith, k)

-- reset succeeds on a fiber that is over or has not begun, and makes it begin anew.
pub reset_lem :
    (c : ℕ) (cb : Option ℕ) (w : World)
    → (w.fibers c).stack ≡ true
    → (is_over (w.fibers c).state || is_init (w.fibers c).state) ≡ true
    → (w' : World) × (reset c cb w ≡ some w')
      × (w'.main_fiber ≡ w.main_fiber)
      × (w'.current ≡ w.current)
      × (w'.running ≡ w.running)
      × ((y : ℕ) → (w'.fibers y).state ≡ (if c == y then init else (w.fibers y).state))
      × ((y : ℕ) → (w'.fibers y).stack ≡ (w.fibers y).stack)
unfolding reset
reset_lem c cb w s o = (
  record w { fibers = put w.fibers c (record (w.fibers c) { cb = cb; flow = c; state = init }) },
  ground (arith, s, o),
  refl,
  refl,
  refl,
  λ y. ground arith,
  λ y. ground arith,
)

-- A new fiber has a stack and has not begun; nothing else changes.
pub make_fiber_lem :
    (a : ℕ) (cb : Option ℕ) (w : World)
    → (((make_fiber a cb w).fibers a).state ≡ init)
      × (((make_fiber a cb w).fibers a).stack ≡ true)
      × ((y : ℕ) → (a == y) ≡ false → ((make_fiber a cb w).fibers y).state ≡ (w.fibers y).state)
      × ((make_fiber a cb w).main_fiber ≡ w.main_fiber)
      × ((make_fiber a cb w).current ≡ w.current)
      × ((make_fiber a cb w).running ≡ w.running)
unfolding make_fiber
make_fiber_lem a cb w = (ground arith, ground arith, λ y z. ground (arith, z), refl, refl, refl)

-- YieldToHold is one of the ways to stop.
pub leave_hold : (x : ℕ) (w : World) → leave yields_hold x w ≡ yield_to_hold x w
unfolding leave
leave_hold x w = refl
