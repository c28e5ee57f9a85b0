-- ===== src/IoManager/Examples.antt =====
-- mingfwq/iomanager.cpp over a kernel whose epoll_ctl always succeeds and that keeps the events
-- asked for, with one fiber of scheduler 1 waiting to read from descriptor 5.
use mingfwq.Prelude.{
  ℕ, ◌≡◌, refl, arith, Bool, true, false, none, some, List, [], ◌==◌, if◌then◌else◌, get_elem?, set,
}
use mingfwq.IoManager.{
  write_event, Mask, Op, has, no_bits, empty_context, FdContext, Task, Caller, IoManager,
  context_resize, make_manager, grow, add_event,
}
use mingfwq.IoManager.Invariant.{IsValid, set-IsValid}
use mingfwq.IoManager.Ready.{Report, cancel_all, dispatch}
use mingfwq.IoManager.Ready.Steps.{Triggers}
use mingfwq.IoManager.Ready.Rounds.{CancelsAll, cancel_all-Triggers, dispatch_hangup}
use mingfwq.IoManager.Adding.{make_manager-IsValid, Adds, add_event-IsValid}
use mingfwq.IoManager.Table.{new_context, found, grow_race}

-- The events asked for on each descriptor.
abbrev Interest : Type 0
Interest = ℕ → Mask

abbrev obey : Interest → Op → ℕ → Mask → Bool × Interest
obey k op fd asked = (true, λ i. if i == fd then asked else k i)

abbrev no_interest : Interest
no_interest i = no_bits

abbrev quiet : IoManager Interest
quiet = make_manager no_interest

abbrev reading_five : FdContext
reading_five = record {
  fd = 5;
  reader = record { scheduler = some 1; fiber = some 9; cb = none };
  writer = empty_context;
  events = record { reading = true; writing = false };
}

abbrev fiber_nine : Caller
fiber_nine = record { scheduler = some 1; fiber = 9; executing = true }

abbrev idle_context : FdContext
idle_context = record { fd = 5; reader = empty_context; writer = empty_context; events = no_bits }

-- `quiet` after fiber 9 has asked to read from 5.
abbrev busy : IoManager Interest
busy = record quiet {
  kernel = (obey no_interest Op.op_add 5 reading_five.events).1;
  contexts = set quiet.contexts 5 reading_five;
  pending = 1;
}

busy-IsValid : IsValid busy
unfolding make_manager context_resize
busy-IsValid =
    set-IsValid (obey no_interest Op.op_add 5 reading_five.events).1 5 idle_context reading_five []
      1 (make_manager-IsValid no_interest) refl (refl, refl) (omega arith) (omega arith)

busy_at_five : get_elem? busy.contexts 5 ≡ some reading_five
unfolding make_manager context_resize
busy_at_five = refl

nothing_to_write : has (found 5 busy.contexts).events write_event ≡ false
unfolding make_manager context_resize
nothing_to_write = refl

add_event-IsValid_example :
    (b : Bool) × (m' : IoManager Interest) × (add_event obey fiber_nine 5 write_event none busy
      ≡ some (b, m'))
    × Adds obey fiber_nine 5 write_event none busy m' b
add_event-IsValid_example =
    add_event-IsValid obey fiber_nine 5 write_event none busy busy-IsValid refl (λ e. cc e)
      nothing_to_write (omega arith)

grow_race_example :
    (get_elem? (grow 200 quiet.contexts) 200 ≡ some (new_context 200))
    × (get_elem? (grow 40 (grow 200 quiet.contexts)) 200 ≡ none)
unfolding make_manager context_resize
grow_race_example = grow_race 40 200 quiet.contexts refl refl (omega arith) (omega arith)

cancel_all-Triggers_example :
    (b : Bool) × (m' : IoManager Interest) × (ts : List Task) × (cancel_all obey 5 busy
      ≡ some (b, m'))
    × Triggers busy m' ts
    × CancelsAll obey 5 busy b ts (get_elem? busy.contexts 5)
cancel_all-Triggers_example = cancel_all-Triggers obey 5 busy busy-IsValid

abbrev can_read : Report
can_read = record { readable = true; writable = false; broken = false }

abbrev hung_up : Report
hung_up = record { readable = false; writable = false; broken = true }

dispatch_hangup_example : dispatch obey 5 hung_up busy ≡ none
dispatch_hangup_example =
    dispatch_hangup obey 5 hung_up busy reading_five busy-IsValid busy_at_five refl refl refl refl
