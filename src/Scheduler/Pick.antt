-- ===== src/Scheduler/Pick.antt =====
-- The search of Scheduler::run (mingfwq/scheduler.cpp) for a job.
use mingfwq.Prelude.{
  ℕ, ◌≡◌, refl, ap, ◌∙◌, arith, Bool, true, false, not, ◌||◌, inl, inr, none, some, List, [], ◌∷◌,
  ◌++◌, All, Bool-cases,
}
use mingfwq.Fiber.{Fiber}
use mingfwq.Scheduler.{Job, is_some, is_empty, is_foreign, is_busy, Found, pick}

-- A fiber or a callback.
abbrev pub IsJob : Job → Type 0
IsJob j = (is_some j.fiber || is_some j.cb) ≡ true

abbrev pub IsSkipped : (ℕ → Fiber) → ℕ → Job → Type 0
IsSkipped h me j = (is_foreign me j || is_busy h j) ≡ true

abbrev pub any_foreign : ℕ → List Job → Bool
any_foreign me [] = false
any_foreign me (j ∷ js) = is_foreign me j || any_foreign me js

-- Either a job is found behind others that are skipped, or all are skipped.
pub data FirstFit (h : ℕ → Fiber) (me : ℕ) (queue : List Job) (f : Found) : Type 0 where
  hit :
      (before after : List Job) (j : Job)
      → queue ≡ before ++ j ∷ after
      → All (IsSkipped h me) before
      → is_foreign me j ≡ false
      → is_busy h j ≡ false
      → f.job ≡ some j
      → f.queue ≡ before ++ after
      → f.tickle ≡ (any_foreign me before || not (is_empty after))
      → FirstFit h me queue f
  miss :
      All (IsSkipped h me) queue
      → f.job ≡ none
      → f.queue ≡ queue
      → f.tickle ≡ any_foreign me queue
      → FirstFit h me queue f

FirstFit-cons :
    (h : ℕ → Fiber) (me : ℕ) (j : Job) (js : List Job) (f : Found) (b : Bool)
    → IsSkipped h me j
    → b ≡ (is_foreign me j || f.tickle)
    → FirstFit h me js f
    → FirstFit h me (j ∷ js) (record { tickle = b; job = f.job; queue = j ∷ f.queue })
FirstFit-cons h me j js f b s e (hit before after k q a nf nb job queue tickle) =
    hit (j ∷ before) after k (ap (λ l. j ∷ l) q) (s, a) nf nb job (ap (λ l. j ∷ l) queue)
      (e ∙ ground (arith, tickle))
FirstFit-cons h me j js f b s e (miss a job queue tickle) =
    miss (s, a) job (ap (λ l. j ∷ l) queue) (e ∙ rw tickle refl)

-- On a queue where every job has a fiber or a callback, the search fails no assertion. It takes
-- the first job that is neither for another thread nor of a running fiber, leaves the others in
-- order, and asks for a wake-up if it passed a job of another thread or left jobs behind.
pub pick-FirstFit :
    (h : ℕ → Fiber) (me : ℕ) (queue : List Job)
    → All IsJob queue
    → (f : Found) × (pick h me queue ≡ some f) × FirstFit h me queue f
unfolding pick
pick-FirstFit h me [] p = (_, refl, miss tt refl refl refl)
pick-FirstFit h me (j ∷ js) p = elim (Bool-cases (is_foreign me j)) [
  | inl e ↦
      let (f, q, fit) = pick-FirstFit h me js p.1 in
      (_, rw (e, q) refl, FirstFit-cons h me j js f true (rw e refl) (rw e refl) fit)
  | inr e ↦ elim (Bool-cases (is_busy h j)) [
    | inl b ↦
        let (f, q, fit) = pick-FirstFit h me js p.1 in
        (
          _,
          rw (e, p.0, b, q) refl,
          FirstFit-cons h me j js f f.tickle (rw (e, b) refl) (rw e refl) fit,
        )
    | inr b ↦ (_, rw (e, p.0, b) refl, hit [] js j refl tt e b refl refl refl)
  ]
]
