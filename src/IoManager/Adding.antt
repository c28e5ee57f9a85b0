-- ===== src/IoManager/Adding.antt =====
-- addEvent of mingfwq/iomanager.cpp, the contexts that it makes, and the constructor.
use mingfwq.Prelude.{
  ℕ, zero, suc, ◌+◌, ◌*◌, ◌/◌, ◌≤◌, ◌<◌, ◌^◌, ◌≡◌, ◌≢◌, refl, sym, ap, ◌∙◌, arith, Bool, true,
  false, ◌&&◌, ◌||◌, inl, inr, Option, none, some, List, [], ◌∷◌, ltb, if◌then◌else◌, length,
  get_elem?, set, All, Bool-cases,
}
use mingfwq.IoManager.{
  Event, no_event, read_event, write_event, Mask, Op, op_add, op_mod, has, is_any, with_event,
  is_some, EventContext, FdContext, Caller, IoManager, get_context, set_context, context_resize,
  make_manager, registration, add_event, add_one,
}
use mingfwq.IoManager.Invariant.{
  IsConsistent, is_armed, is_clear, bit, registered, count, IsValid, All-get_elem?, set-IsValid,
  KeepsOther,
}
use mingfwq.IoManager.Table.{
  found, grown, length-context_resize, found-grown, others-grown, get_elem?-set,
  get_elem?-set_other,
}

context_resize-IsConsistent :
    (n i : ℕ) (cs : List FdContext) → All IsConsistent cs → All IsConsistent (context_resize n i cs)
unfolding context_resize
context_resize-IsConsistent zero i cs p = tt
context_resize-IsConsistent (suc n) i [] p =
    ((refl, refl), context_resize-IsConsistent n (i + 1) [] tt)
context_resize-IsConsistent (suc n) i (c ∷ cs) p =
    (p.0, context_resize-IsConsistent n (i + 1) cs p.1)

count-context_resize :
    (n i : ℕ) (cs : List FdContext) → length cs ≤ n → count (context_resize n i cs) ≡ count cs
unfolding context_resize
count-context_resize zero i [] h = refl
count-context_resize zero i (c ∷ cs) h = omega (arith, h)
count-context_resize (suc n) i [] h = omega (arith, count-context_resize n (i + 1) [] (omega arith))
count-context_resize (suc n) i (c ∷ cs) h =
    omega (arith, count-context_resize n (i + 1) cs (omega (arith, h)))

-- The constructor makes a valid manager.
pub make_manager-IsValid : {Kernel : Type 0} (k : Kernel) → IsValid (make_manager k)
unfolding make_manager
make_manager-IsValid k = record {
  consistent = context_resize-IsConsistent 32 0 [] tt;
  counted = sym (count-context_resize 32 0 [] (omega arith));
  enough = omega (arith, length-context_resize 32 0 []);
  bounded = omega (arith, count-context_resize 32 0 [] (omega arith));
}

-- None is lost when the table grows.
grown-IsValid :
    {Kernel : Type 0} (fd : ℕ) (m : IoManager Kernel) (k : Kernel)
    → IsValid m
    → IsValid (record m { kernel = k; contexts = grown fd m.contexts })
grown-IsValid fd m k v = elim (Bool-cases (ltb fd (length m.contexts))) [
  | inl e ↦ rw e (record {
    consistent = v.consistent;
    counted = v.counted;
    enough = v.enough;
    bounded = v.bounded;
  })
  | inr e ↦
      let n = fd * 3 / 2 in
      let beyond : length m.contexts ≤ fd = ground (arith, e) in
      let same = count-context_resize n 0 m.contexts (omega (arith, beyond, v.enough)) in
      let size = length-context_resize n 0 m.contexts in
      rw e (record {
        consistent = context_resize-IsConsistent n 0 m.contexts v.consistent;
        counted = v.counted ∙ sym same;
        enough = omega (arith, size, beyond, v.enough);
        bounded = omega (arith, same, v.bounded);
      })
]

-- The caller can wait: it runs under a scheduler, and with no callback it is a fiber in EXEC.
abbrev pub can_wait : Caller → Option ℕ → Bool
can_wait caller cb = is_some caller.scheduler && (is_some cb || caller.executing)

-- The callback, or else the calling fiber, for the scheduler of the caller.
abbrev pub awaited : Caller → Option ℕ → EventContext
awaited caller none = record { scheduler = caller.scheduler; fiber = some caller.fiber; cb = none }
awaited caller (some f) = record { scheduler = caller.scheduler; fiber = none; cb = some f }

registration_lem :
    (caller : Caller) (cb : Option ℕ) (ctx : EventContext)
    → can_wait caller cb ≡ true
    → is_clear ctx ≡ true
    → (ctx' : EventContext) × (registration caller cb ctx ≡ some ctx')
      × (is_armed ctx' ≡ true)
      × (ctx' ≡ awaited caller cb)
unfolding registration
registration_lem caller none ctx w p =
    let clear : (is_some ctx.scheduler || is_some ctx.fiber || is_some ctx.cb) ≡ false =
      ground (arith, p) in
    let runs : is_some caller.scheduler ≡ true = ground (arith, w) in
    let exec : caller.executing ≡ true = ground (arith, w) in
    (awaited caller none, rw (clear, exec) refl, rw runs refl, refl)
registration_lem caller (some f) ctx w p =
    let clear : (is_some ctx.scheduler || is_some ctx.fiber || is_some ctx.cb) ≡ false =
      ground (arith, p) in
    let runs : is_some caller.scheduler ≡ true = ground (arith, w) in
    (awaited caller (some f), rw clear refl, rw runs refl, refl)

-- From `c` to `c'` the event is registered with what waits for it, besides those that were.
abbrev pub Registers : Caller → Event → Option ℕ → FdContext → FdContext → Type 0
Registers caller e cb c c' =
    (c'.events ≡ with_event c.events e)
    × (get_context e c' ≡ some (awaited caller cb))
    × KeepsOther e c c'

event_added :
    (e : Event) (c : FdContext) (caller : Caller) (cb : Option ℕ)
    → e ≢ no_event
    → IsConsistent c
    → has c.events e ≡ false
    → can_wait caller cb ≡ true
    → (ctx ctx' : EventContext) × (get_context e c ≡ some ctx)
      × (registration caller cb ctx ≡ some ctx')
      × IsConsistent (set_context e ctx' (record c { events = with_event c.events e }))
      × (registered (set_context e ctx' (record c { events = with_event c.events e }))
          ≡ registered c + 1)
      × Registers caller e cb c (set_context e ctx' (record c { events = with_event c.events e }))
unfolding get_context set_context
event_added no_event c caller cb n p h w = elim (n refl) [ ]
event_added read_event c caller cb n p h w =
    let (ctx', q, armed, is) = registration_lem caller cb c.reader w (rw h at p.0) in
    (c.reader, ctx', refl, q, (armed, p.1), rw h (omega arith), (refl, ap some is, refl))
event_added write_event c caller cb n p h w =
    let (ctx', q, armed, is) = registration_lem caller cb c.writer w (rw h at p.1) in
    (c.writer, ctx', refl, q, (p.0, armed), rw h (omega arith), (refl, ap some is, refl))

-- What addEvent does, where `b` is its answer: it asks for the event with those that are registered,
-- to add the descriptor or to change it, and where epoll_ctl grants that it registers the
-- event; no other context changes.
pub record Adds {Kernel : Type 0} (epoll_ctl : Kernel → Op → ℕ → Mask → Bool × Kernel)
    (caller : Caller) (fd : ℕ) (e : Event) (cb : Option ℕ) (m m' : IoManager Kernel) (b : Bool)
    : Type 0 where
  pub answer :
      (b, m'.kernel)
      ≡ epoll_ctl m.kernel
          (if is_any (found fd m.contexts).events then op_mod else op_add)
          fd
          (with_event (found fd m.contexts).events e)
  pub valid : IsValid m'
  pub counts : m'.pending ≡ m.pending + bit b
  pub waits : m'.queue ≡ m.queue
  pub context : FdContext
  pub there : get_elem? m'.contexts fd ≡ some context
  pub granted : b ≡ true → Registers caller e cb (found fd m.contexts) context
  pub refused : b ≡ false → context ≡ found fd m.contexts
  pub others :
      (i : ℕ) → i ≢ fd → i < length m.contexts → get_elem? m'.contexts i ≡ get_elem? m.contexts i

-- addEvent of READ or WRITE on a valid manager, by a caller that can wait, for an event that is
-- not registered on the descriptor, where fewer than 2^64 - 1 are pending, meets no failed
-- assertion and keeps the manager valid. It asks epoll for the event with those that are
-- registered on the descriptor, with EPOLL_CTL_MOD if there are any and else with EPOLL_CTL_ADD,
-- and answers whether that was granted. If it was, the context of the descriptor has the event with
-- the callback, or else the calling fiber, and the scheduler of the caller, and one event more is
-- pending; if not, the context is as it was. The other event of the descriptor, the other
-- descriptors and the queue are as they were.
pub add_event-IsValid :
    {Kernel : Type 0} (epoll_ctl : Kernel → Op → ℕ → Mask → Bool × Kernel) (caller : Caller)
    (fd : ℕ) (e : Event) (cb : Option ℕ) (m : IoManager Kernel)
    → IsValid m
    → can_wait caller cb ≡ true
    → e ≢ no_event
    → has (found fd m.contexts).events e ≡ false
    → m.pending + 1 < 2 ^ 64
    → (b : Bool) × (m' : IoManager Kernel) × (add_event epoll_ctl caller fd e cb m ≡ some (b, m'))
      × Adds epoll_ctl caller fd e cb m m' b
unfolding add_event
add_event-IsValid epoll_ctl caller fd e cb m v w n free l =
    let v' = grown-IsValid fd m m.kernel v in
    let c = found fd m.contexts in
    let f = found-grown fd m.contexts v.enough in
    let p = All-get_elem? (grown fd m.contexts) fd c v'.consistent f in
    let asked = with_event c.events e in
    let op = if is_any c.events then op_mod else op_add in
    let r = epoll_ctl m.kernel op fd asked in
    elim (Bool-cases r.0) [
      | inr h ↦ (
        false,
        record m { kernel = r.1; contexts = grown fd m.contexts },
        rw (add_event, f, free, h) refl,
        record {
          answer = ap (λ b. (b, r.1)) (sym h);
          valid = grown-IsValid fd m r.1 v;
          counts = omega arith;
          waits = refl;
          context = c;
          there = f;
          granted = λ q. cc q;
          refused = λ q. refl;
          others = λ i d k. others-grown fd m.contexts i v.enough k;
        },
      )
      | inl h ↦
          let (ctx, ctx', g, q, p', more, is) = event_added e c caller cb n p free w in
          let c' = set_context e ctx' (record c { events = asked }) in
          let one : add_one m.pending ≡ m.pending + 1 = omega (arith, l) in
          (
            true,
            record m {
              kernel = r.1;
              contexts = set (grown fd m.contexts) fd c';
              pending = add_one m.pending;
            },
            rw (add_event, f, free, h, g, q) refl,
            record {
              answer = ap (λ b. (b, r.1)) (sym h);
              valid =
                  set-IsValid r.1 fd c c' m.queue (add_one m.pending) v' f p'
                    (omega (arith, one, more)) (omega (arith, one, l));
              counts = one;
              waits = refl;
              context = c';
              there = get_elem?-set (grown fd m.contexts) fd c c' f;
              granted = λ q. is;
              refused = λ q. cc q;
              others = λ i d k.
                  get_elem?-set_other (grown fd m.contexts) fd i c' d
                  ∙ others-grown fd m.contexts i v.enough k;
            },
          )
    ]
