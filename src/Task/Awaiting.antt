-- ===== src/Task/Awaiting.antt =====
-- task/task.hpp: which coroutine has control as tasks await each other. `Task::Awaiter` passes it to the awaited task and
-- `FinalAwaiter` back, each by the handle that it returns. A coroutine is named by a number.
use co_wq.Prelude.{
  ℕ, ◌≡◌, ◌≢◌, refl, ap, ◌∙◌, inl, inr, true, false, Option, none, some, List, [], ◌∷◌, ◌==◌,
  if◌then◌else◌, Bool-cases, arith,
}

-- `previous` is `mPrevious` of each promise, and `current` the coroutine that runs: none for the caller of `resume`, to
-- whom `noop_coroutine` returns.
pub record Frames : Type 0 where
  pub previous : ℕ → Option ℕ
  pub current : Option ℕ

-- `Task::Awaiter::await_suspend`, in the coroutine that runs.
unfoldable pub await_task : ℕ → Frames → Frames
await_task task f = record {
  previous = λ t. if t == task then f.current else f.previous t;
  current = some task;
}

abbrev pub previous_of : Option ℕ → Frames → Option ℕ
previous_of none f = none
previous_of (some task) f = f.previous task

-- `FinalAwaiter::await_suspend` of the coroutine that runs, with no callback.
unfoldable pub final_suspend : Frames → Frames
final_suspend f = record f { current = previous_of f.current f }

-- What a coroutine does: it awaits a task, which has a body itself, and goes on.
pub data Body : Type 0 where
  finished : Body
  awaits : ℕ → Body → Body → Body

unfoldable pub run_body : Body → Frames → Frames
run_body finished f = f
run_body (awaits task body rest) f =
    run_body rest (final_suspend (run_body body (await_task task f)))

abbrev pub IsNotIn : ℕ → List ℕ → Type 0
IsNotIn t [] = Unit
IsNotIn t (u ∷ us) = (t ≢ u) × IsNotIn t us

-- No task is awaited that is being awaited already: `live` are those.
abbrev pub Awaitable : List ℕ → Body → Type 0
Awaitable live finished = Unit
Awaitable live (awaits task body rest) =
    IsNotIn task live × Awaitable (task ∷ live) body × Awaitable live rest

-- The promises of the live tasks stay as they are.
abbrev pub Same : List ℕ → Frames → Frames → Type 0
Same [] f g = Unit
Same (t ∷ ts) f g = (g.previous t ≡ f.previous t) × Same ts f g

Same_refl : (live : List ℕ) (f : Frames) → Same live f f
Same_refl [] f = tt
Same_refl (t ∷ ts) f = (refl, Same_refl ts f)

Same_trans : (live : List ℕ) (f g h : Frames) → Same live f g → Same live g h → Same live f h
Same_trans [] f g h s t = tt
Same_trans (t ∷ ts) f g h s r = (r.0 ∙ s.0, Same_trans ts f g h s.1 r.1)

await-Same :
    (live : List ℕ) (task : ℕ) (f : Frames) → IsNotIn task live → Same live f (await_task task f)
unfolding await_task
await-Same [] task f n = tt
await-Same (t ∷ ts) task f n =
    let other : (t == task) ≡ false = elim (Bool-cases (t == task)) [
      | inl e ↦ absurd (n.0 (ground (arith, e)))
      | inr e ↦ e
    ] in
    (ap (λ b. if b then f.current else f.previous t) other, await-Same ts task f n.1)

final-Same : (live : List ℕ) (f : Frames) → Same live f (final_suspend f)
unfolding final_suspend
final-Same [] f = tt
final-Same (t ∷ ts) f = (refl, final-Same ts f)

await-previous : (task : ℕ) (f : Frames) → (await_task task f).previous task ≡ f.current
unfolding await_task
await-previous task f = ap (λ b. if b then f.current else f.previous task) (same_number task)
  where
    same_number : (n : ℕ) → (n == n) ≡ true
    same_number n = ground arith

-- At the end of an awaited task `f2`, control goes back to the one that had it.
back :
    (f f1 f2 : Frames) (task : ℕ)
    → f2.current ≡ f1.current
    → f2.previous task ≡ f1.previous task
    → f1.current ≡ some task
    → f1.previous task ≡ f.current
    → (final_suspend f2).current ≡ f.current
unfolding final_suspend
back f f1 f2 task c p t q = ap (λ o. previous_of o f2) (c ∙ t) ∙ p ∙ q

returned :
    (live : List ℕ) (b : Body) (f : Frames)
    → Awaitable live b
    → ((run_body b f).current ≡ f.current) × Same live f (run_body b f)
unfolding run_body await_task
returned live finished f a = (refl, Same_refl live f)
returned live (awaits task body rest) f a =
    let f1 = await_task task f in
    let f2 = run_body body f1 in
    let f3 = final_suspend f2 in
    let inner = returned (task ∷ live) body f1 a.1 in
    let after = returned live rest f3 a.2 in
    (
      after.0 ∙ back f f1 f2 task inner.0 inner.1.0 refl (await-previous task f),
      Same_trans live f f3 (run_body rest f3)
          (Same_trans live f f2 f3 (Same_trans live f f1 f2 (await-Same live task f a.0) inner.1.1)
            (final-Same live f2))
          after.1,
    )

-- A coroutine that awaits tasks, which await others in turn, none of them while it is being awaited already, has
-- control again when they have ended, and its own promise still names the one that awaits it.
pub run_body-current :
    (task : ℕ) (b : Body) (f : Frames)
    → f.current ≡ some task
    → Awaitable (task ∷ []) b
    → ((run_body b f).current ≡ some task)
      × ((final_suspend (run_body b f)).current ≡ f.previous task)
unfolding final_suspend
run_body-current task b f e a =
    let r = returned (task ∷ []) b f a in
    (r.0 ∙ e, ap (λ o. previous_of o (run_body b f)) (r.0 ∙ e) ∙ r.1.0)
