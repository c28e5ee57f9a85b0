-- ===== src/Fiber.antt =====
-- mingfwq/fiber.h and mingfwq/fiber.cpp: the fibers of one thread and how control passes between
-- them.
--
-- A fiber is at an address. `flow` names what a `ucontext_t` resumes: the code of the fiber at
-- that address, from where it stopped. `swapcontext` stores the flow that runs in one fiber and
-- goes on with the one stored in another; getcontext, makecontext and swapcontext succeed. The
-- three thread-local pointers are fields of the thread. A function's result is `none` where an
-- assertion fails or a null pointer is dereferenced. Only stacks of fibers are tracked, by
-- whether m_stack is null. A callback is a name.
pub mod Switch
pub mod Reachable
mod Examples
use mingfwq.Prelude.{
  ℕ, ◌+◌, ◌-◌, ◌%◌, ◌^◌, Bool, true, false, not, ◌&&◌, ◌||◌, Option, none, some, ◌==◌,
  if◌then◌else◌,
}

-- Fiber::State
pub data State : Type 0 where
  init hold exec term ready except : State

abbrev pub is_exec : State → Bool
is_exec exec = true
is_exec _ = false

-- TERM or EXCEPT.
abbrev pub is_over : State → Bool
is_over term = true
is_over except = true
is_over _ = false

abbrev pub is_init : State → Bool
is_init init = true
is_init _ = false

pub record Fiber : Type 0 where
  pub id : ℕ
  pub stack : Bool
  pub state : State
  pub cb : Option ℕ
  pub flow : ℕ

-- `current` is t_fiber of fiber.cpp, `thread_fiber` t_threadFiber, and `main_fiber` t_fiber of
-- scheduler.cpp; `running` is the flow that has the processor.
pub record World : Type 0 where
  pub fibers : ℕ → Fiber
  pub last_id : ℕ
  pub count : ℕ
  pub current : Option ℕ
  pub thread_fiber : Option ℕ
  pub main_fiber : Option ℕ
  pub running : ℕ

abbrev pub put : (ℕ → Fiber) → ℕ → Fiber → ℕ → Fiber
put h a f b = if a == b then f else h b

abbrev pub set_state : ℕ → State → World → World
set_state a s w = record w { fibers = put w.fibers a (record (w.fibers a) { state = s }) }

-- swapcontext(&from->m_ctx, &to->m_ctx)
abbrev pub swap_context : ℕ → ℕ → World → World
swap_context from to w =
    let h = put w.fibers from (record (w.fibers from) { flow = w.running }) in
    record w { fibers = h; running = (h to).flow }

-- Fiber::Fiber(), the fiber of a thread's own stack, at address `a`. Its context is the flow that
-- constructs it.
pub make_thread_fiber : ℕ → World → World
make_thread_fiber a w = record w {
  fibers =
      put w.fibers a (record { id = 0; stack = false; state = exec; cb = none; flow = w.running });
  current = some a;
  count = (w.count + 1) % 2 ^ 64;
}

-- Fiber::Fiber(cb, stacksize, use_caller), at address `a`.
pub make_fiber : ℕ → Option ℕ → World → World
make_fiber a cb w = record w {
  fibers =
      put w.fibers a
        (record { id = (w.last_id + 1) % 2 ^ 64; stack = true; state = init; cb = cb; flow = a });
  last_id = (w.last_id + 1) % 2 ^ 64;
  count = (w.count + 1) % 2 ^ 64;
}

-- Fiber::~Fiber
pub destroy : ℕ → World → Option World
destroy a w =
    let f = w.fibers a in
    let gone = record w { count = (w.count + 2 ^ 64 - 1) % 2 ^ 64 } in
    let is_current : Bool = elim w.current [ none ↦ false | some c ↦ c == a ] in
    if f.stack then if is_over f.state || is_init f.state then some gone else none else elim f.cb [
      | some cb ↦ none
      | none ↦
          if is_exec f.state
          then some (if is_current then record gone { current = none } else gone)
          else none
    ]

-- Fiber::reset
pub reset : ℕ → Option ℕ → World → Option World
reset a cb w =
    let f = w.fibers a in
    if f.stack && (is_over f.state || is_init f.state)
    then some (record w { fibers = put w.fibers a (record f { cb = cb; flow = a; state = init }) })
    else none

-- Fiber::swapIn
pub swap_in : ℕ → World → Option World
swap_in a w = if is_exec (w.fibers a).state then none else elim w.main_fiber [
  | none ↦ none
  | some m ↦ some (swap_context m a (set_state a exec (record w { current = some a })))
]

-- Fiber::swapOut
pub swap_out : ℕ → World → Option World
swap_out a w = elim w.main_fiber [
  | none ↦ none
  | some m ↦ some (swap_context a m (record w { current = some m }))
]

-- Fiber::call
pub call : ℕ → World → Option World
call a w = elim w.thread_fiber [
  | none ↦ none
  | some t ↦ some (swap_context t a (set_state a exec (record w { current = some a })))
]

-- Fiber::back
pub back : ℕ → World → Option World
back a w = elim w.thread_fiber [
  | none ↦ none
  | some t ↦ some (swap_context a t (record w { current = some t }))
]

-- Fiber::GetThis: `a` is where a thread's first fiber would be allocated.
pub get_this : ℕ → World → ℕ × World
unfolding make_thread_fiber
get_this a w = elim w.current [
  | some c ↦ (c, w)
  | none ↦ (a, record (make_thread_fiber a w) { thread_fiber = some a })
]

-- Fiber::YieldToReady
pub yield_to_ready : ℕ → World → Option World
yield_to_ready a w = let r = get_this a w in swap_out r.0 (set_state r.0 ready r.1)

-- Fiber::YieldToHold
pub yield_to_hold : ℕ → World → Option World
yield_to_hold a w = let r = get_this a w in swap_out r.0 (set_state r.0 hold r.1)

-- What MainFunc and CallMainFunc do once the callback has returned or thrown.
abbrev pub conclude : Bool → ℕ → World → World
conclude thrown a w =
    if thrown
    then set_state a except w
    else record w { fibers = put w.fibers a (record (w.fibers a) { cb = none; state = term }) }

-- Fiber::MainFunc behind the callback: `thrown` is whether it threw.
pub main_func : Bool → ℕ → World → Option World
main_func thrown a w = let r = get_this a w in swap_out r.0 (conclude thrown r.0 r.1)

-- Fiber::CallMainFunc behind the callback.
pub call_main_func : Bool → ℕ → World → Option World
call_main_func thrown a w = let r = get_this a w in back r.0 (conclude thrown r.0 r.1)
