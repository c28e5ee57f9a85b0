-- ===== src/FdManager/Contexts.antt =====
-- get and del of mingfwq/fd_manager.cpp keep one context for each descriptor, in one thread; two
-- threads in get may make two.
use mingfwq.Prelude.{
  ℕ, ◌+◌, ◌-◌, ◌*◌, ◌/◌, ◌≤◌, ◌<◌, ◌≡◌, ◌≢◌, ◌⊎◌, refl, sym, ap, ◌∙◌, subst, arith, Bool, true,
  false, inl, inr, Option, none, some, List, [], ltb, leb, ◌==◌, if◌then◌else◌, length, set,
  length-set, length-append, length-take, length-replicate, take, replicate, Bool-cases,
  Option-cases, ==_iff,
}
use mathlib.Core.Option.{some-injective}
use mingfwq.FdManager.{
  FdCtx, FdManager, make_fd_manager, entry, resize, look, create, get, del, is_sock, init, blank,
}
use mingfwq.FdManager.Table.{entry-set_same, entry-set_other, entry-resize, entry_out}

-- A socket is initialized, and the system does not block on sockets.
abbrev pub IsSound : FdCtx → Type 0
IsSound c = (c.sys_nonblock ≡ c.is_socket) × (c.is_socket ≡ true → c.is_init ≡ true)

-- The table has room for 64 descriptors, its entries are contexts of their descriptors, and a
-- context is for a descriptor that the system does not block on if it is a socket.
pub record IsValid {Kernel : Type 0} (m : FdManager Kernel) : Type 0 where
  pub room : 64 ≤ length m.datas
  pub made : (fd a : ℕ) → entry m.datas fd ≡ some a → (a < m.next) × ((m.contexts a).fd ≡ fd)
  pub sound : (a : ℕ) → a < m.next → IsSound (m.contexts a)

-- Between `m` and `m'`, `fd` alone may get another entry, and no old context changes.
pub record Extends {Kernel : Type 0} (fd : ℕ) (m m' : FdManager Kernel) : Type 0 where
  pub others : (j : ℕ) → j ≢ fd → entry m'.datas j ≡ entry m.datas j
  pub contexts : (a : ℕ) → a < m.next → m'.contexts a ≡ m.contexts a
  pub more : m.next ≤ m'.next

abbrev grown : ℕ → List (Option ℕ) → List (Option ℕ)
grown fd ds = if leb (length ds) fd then resize (fd * 3 / 2) ds else ds

grown_lem :
    (fd : ℕ) (ds : List (Option ℕ))
    → 64 ≤ length ds
    → (fd < length (grown fd ds))
      × (length ds ≤ length (grown fd ds))
      × ((j : ℕ) → entry (grown fd ds) j ≡ entry ds j)
grown_lem fd ds h = elim (Bool-cases (leb (length ds) fd)) [
  | inr e ↦ (ground (arith, e), ground (arith, e), λ j. rw e refl)
  | inl e ↦
      let over : length ds ≤ fd * 3 / 2 = ground (arith, e, h) in
      let size : length (resize (fd * 3 / 2) ds) ≡ fd * 3 / 2 = omega (
        arith,
        over,
        length-append (take (fd * 3 / 2) ds) (replicate (fd * 3 / 2 - length ds) none),
        length-take (fd * 3 / 2) ds,
        length-replicate {A = Option ℕ} (fd * 3 / 2 - length ds) none,
      ) in
      let past : fd < fd * 3 / 2 = ground (arith, e, h) in
      rw e (
        omega (arith, size, past),
        omega (arith, size, over),
        λ j. entry-resize (fd * 3 / 2) ds j over,
      )
]

module _ {Kernel : Type 0} (fstat : Kernel → ℕ → Option Bool) (get_flags : Kernel → ℕ → ℕ)
    (set_flags : Kernel → ℕ → ℕ → Kernel) where
  init-IsSound : (fd : ℕ) (k : Kernel) → IsSound (init fstat get_flags set_flags (blank fd) k).1
  unfolding init
  init-IsSound fd k = elim (Option-cases (fstat k fd)) [
    | inl e ↦ (refl, λ z. cc (z, ap (λ o. elim o as (λ _. Bool) [ none ↦ false | some b ↦ b ]) e))
    | inr (b, e) ↦ (refl, λ z. rw e refl)
  ]

  create_lem :
      (fd : ℕ) (m : FdManager Kernel)
      → IsValid m
      → (m' : FdManager Kernel) × (create fstat get_flags set_flags fd m ≡ some (some m.next, m'))
        × IsValid m'
        × (entry m'.datas fd ≡ some m.next)
        × Extends fd m m'
        × (m'.next ≡ m.next + 1)
        × ((m'.contexts m.next).is_socket ≡ is_sock fstat get_flags set_flags m.kernel fd)
  unfolding create init
  create_lem fd m v =
      let (fits, wider, same) = grown_lem fd m.datas v.room in
      let ok : ltb fd (length (grown fd m.datas)) ≡ true = ground (arith, fits) in
      let r = init fstat get_flags set_flags (blank fd) m.kernel in
      let m' : FdManager Kernel = record {
        kernel = r.2;
        contexts = λ a. if a == m.next then r.1 else m.contexts a;
        next = m.next + 1;
        datas = set (grown fd m.datas) fd (some m.next);
      } in
      let at : entry m'.datas fd ≡ some m.next =
        entry-set_same (grown fd m.datas) fd (some m.next) fits in
      let aside : (j : ℕ) → j ≢ fd → entry m'.datas j ≡ entry m.datas j =
        λ j n. entry-set_other (grown fd m.datas) fd j (some m.next) (λ e. n (sym e)) ∙ same j in
      let old : (a : ℕ) → a < m.next → m'.contexts a ≡ m.contexts a =
        λ a l. let apart : (a == m.next) ≡ false = ground (arith, l) in rw apart refl in
      let new : m'.contexts m.next ≡ r.1 =
        let it : (m.next == m.next) ≡ true = ground arith in rw it refl in
      (
        m',
        rw ok refl,
        record {
          room = omega (arith, length-set (grown fd m.datas) fd (some m.next), wider, v.room);
          made = λ j a e. elim (Bool-cases (j == fd)) [
            | inl z ↦
                let here : j ≡ fd = (==_iff j fd).0 z in
                let it : m.next ≡ a =
                  some-injective _ _ (sym at ∙ ap (entry m'.datas) (sym here) ∙ e) in
                subst (λ b. (b < m'.next) × ((m'.contexts b).fd ≡ j)) it
                  (omega arith, ap (λ c. c.fd) new ∙ sym here)
            | inr z ↦
                let away : j ≢ fd = λ q. ground (arith, q, z) in
                let (low, own) = v.made j a (sym (aside j away) ∙ e) in
                (omega (arith, low), ap (λ c. c.fd) (old a low) ∙ own)
          ];
          sound = λ a l. elim (Bool-cases (a == m.next)) [
            | inl z ↦
                subst IsSound (sym (ap m'.contexts ((==_iff a m.next).0 z) ∙ new))
                  (init-IsSound fd m.kernel)
            | inr z ↦
                let low : a < m.next = ground (arith, l, z) in
                subst IsSound (sym (old a low)) (v.sound a low)
          ];
        },
        at,
        record { others = aside; contexts = old; more = omega arith },
        refl,
        ap (λ c. c.is_socket) new,
      )

  look_lem :
      (fd : ℕ) (m : FdManager Kernel)
      → ((a : ℕ) × (entry m.datas fd ≡ some a) × (look fd true m ≡ some (some a)))
        ⊎ ((entry m.datas fd ≡ none) × (look fd true m ≡ none))
  unfolding look
  look_lem fd m = elim (Bool-cases (leb (length m.datas) fd)) [
    | inl z ↦ inr (entry_out m.datas fd (ground (arith, z)), rw (look, z) refl)
    | inr z ↦ elim (Option-cases (entry m.datas fd)) [
      | inl e ↦ inr (e, rw (look, z, e) refl)
      | inr (a, e) ↦ inl (a, e, rw (look, z, e) refl)
    ]
  ]

  -- get with auto_create on a valid manager finds the context of the descriptor or makes one: it
  -- gives an address that the table then has for the descriptor, the manager stays valid, no
  -- other entry and no old context changes, and nothing at all where the table had a context.
  pub get-IsValid :
      (fd : ℕ) (m : FdManager Kernel)
      → IsValid m
      → (a : ℕ) × (m' : FdManager Kernel) × (get fstat get_flags set_flags (some fd) true m
          ≡ some (some a, m'))
        × IsValid m'
        × (entry m'.datas fd ≡ some a)
        × ((m'.contexts a).fd ≡ fd)
        × Extends fd m m'
        × ((b : ℕ) → entry m.datas fd ≡ some b → m' ≡ m)
  unfolding get
  get-IsValid fd m v = elim (look_lem fd m) [
    | inl (a, e, q) ↦ (
      a,
      m,
      rw (get, q) refl,
      v,
      e,
      (v.made fd a e).1,
      record { others = λ j n. refl; contexts = λ b l. refl; more = omega arith },
      λ b k. refl,
    )
    | inr (e, q) ↦
        let (m', p, w, at, x, n, s) = create_lem fd m v in
        (m.next, m', rw (get, q) p, w, at, (w.made fd m.next at).1, x, λ b k. cc (e, k))
  ]

  -- Where two threads are in get with auto_create for a descriptor without a context, and both
  -- have left the read lock before either takes the write lock, they get different contexts,
  -- and that of the first is in the table for no descriptor.
  pub get_race :
      (fd : ℕ) (m : FdManager Kernel)
      → IsValid m
      → entry m.datas fd ≡ none
      → (a : ℕ) × (b : ℕ) × (m₁ : FdManager Kernel) × (m₂ : FdManager Kernel) × (look fd true m
          ≡ none)
        × (create fstat get_flags set_flags fd m ≡ some (some a, m₁))
        × (create fstat get_flags set_flags fd m₁ ≡ some (some b, m₂))
        × (a ≢ b)
        × ((j : ℕ) → entry m₂.datas j ≢ some a)
  get_race fd m v none_yet =
      let (m₁, p, w, at, x, n, s) = create_lem fd m v in
      let (m₂, p', w', at', x', n', s') = create_lem fd m₁ w in
      let answer : look fd true m ≡ none = elim (look_lem fd m) [
        | inl (a, e, q) ↦ cc (e, none_yet)
        | inr (e, q) ↦ q
      ] in
      (
        m.next,
        m₁.next,
        m₁,
        m₂,
        answer,
        p,
        p',
        λ e. absurd (omega (arith, e, n)),
        λ j e. elim (Bool-cases (j == fd)) [
          | inl z ↦
              let it : m₁.next ≡ m.next =
                some-injective _ _ (sym at' ∙ ap (entry m₂.datas) (sym ((==_iff j fd).0 z)) ∙ e) in
              absurd (omega (arith, it, n))
          | inr z ↦
              let away : j ≢ fd = λ q. ground (arith, q, z) in
              let before : entry m.datas j ≡ some m.next =
                sym (x.others j away) ∙ sym (x'.others j away) ∙ e in
              absurd (omega (arith, (v.made j m.next before).0))
        ],
      )

-- del on a valid manager keeps it valid, and leaves the table with no context for the descriptor
-- and the others as they were.
pub del-IsValid :
    {Kernel : Type 0} (fd : ℕ) (m : FdManager Kernel)
    → IsValid m
    → IsValid (del fd m) × (entry (del fd m).datas fd ≡ none) × Extends fd m (del fd m)
unfolding del
del-IsValid fd m v = elim (Bool-cases (leb (length m.datas) fd)) [
  | inl z ↦
      rw (del, z)
        (
          v,
          entry_out m.datas fd (ground (arith, z)),
          record { others = λ j n. refl; contexts = λ b l. refl; more = omega arith },
        )
  | inr z ↦
      let at = entry-set_same m.datas fd none (ground (arith, z)) in
      let aside = λ (j : ℕ) (n : j ≢ fd). entry-set_other m.datas fd j none (λ e. n (sym e)) in
      rw (del, z)
        (
          record {
            room = omega (arith, length-set m.datas fd none, v.room);
            made = λ j a e. elim (Bool-cases (j == fd)) [
              | inl q ↦ cc (e, at, ap (entry (set m.datas fd none)) ((==_iff j fd).0 q))
              | inr q ↦ v.made j a (sym (aside j (λ p. ground (arith, p, q))) ∙ e)
            ];
            sound = v.sound;
          },
          at,
          record { others = aside; contexts = λ b l. refl; more = omega arith },
        )
]

pub entry_vacant : (n i a : ℕ) → entry (resize n []) i ≢ some a
entry_vacant n i a e = cc (entry-resize n [] i (omega arith), e)

-- Without auto_create, get answers what the table has.
pub get_only :
    {Kernel : Type 0} (fstat : Kernel → ℕ → Option Bool) (get_flags : Kernel → ℕ → ℕ)
    (set_flags : Kernel → ℕ → ℕ → Kernel) (fd : ℕ) (m : FdManager Kernel)
    → get fstat get_flags set_flags (some fd) false m ≡ some (entry m.datas fd, m)
unfolding get look
get_only fstat get_flags set_flags fd m = elim (Bool-cases (leb (length m.datas) fd)) [
  | inl z ↦
      rw (get, look, z) (ap (λ o. some (o, m)) (sym (entry_out m.datas fd (ground (arith, z)))))
  | inr z ↦ elim (Option-cases (entry m.datas fd)) [
    | inl e ↦ rw (get, look, z, e) refl
    | inr (a, e) ↦ rw (get, look, z, e) refl
  ]
]

-- The manager that the constructor makes.
pub make-IsValid : {Kernel : Type 0} (k : Kernel) → IsValid (make_fd_manager k)
unfolding make_fd_manager
make-IsValid k = record {
  room = omega arith;
  made = λ fd a e. absurd (entry_vacant 64 fd a e);
  sound = λ a l. absurd (omega (arith, l));
}
