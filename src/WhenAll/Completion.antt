-- ===== src/WhenAll/Completion.antt =====
-- When the waiting coroutine is resumed.
use co_wq.Prelude.{
  ℕ, zero, suc, ◌+◌, ◌≤◌, ◌≡◌, refl, ap, ◌∙◌, false, ◌&&◌, List, [], ◌∷◌, length, ◌==◌,
  if◌then◌else◌, arith,
}
use co_wq.WhenAll.{
  Child, no_handle, finishes_now, suspends, WhenAllCtlBlock, on_completed, start_all, await_suspend,
  complete_later,
}

-- How many children of each kind there are.
abbrev pub empties : List Child → ℕ
empties [] = 0
empties (no_handle ∷ ts) = suc (empties ts)
empties (finishes_now ∷ ts) = empties ts
empties (suspends ∷ ts) = empties ts

abbrev finished : List Child → ℕ
finished [] = 0
finished (no_handle ∷ ts) = finished ts
finished (finishes_now ∷ ts) = suc (finished ts)
finished (suspends ∷ ts) = finished ts

abbrev pub suspended : List Child → ℕ
suspended [] = 0
suspended (no_handle ∷ ts) = suspended ts
suspended (finishes_now ∷ ts) = suspended ts
suspended (suspends ∷ ts) = suc (suspended ts)

kinds-length : (ts : List Child) → empties ts + (finished ts + suspended ts) ≡ length ts
kinds-length [] = refl
kinds-length (no_handle ∷ ts) = omega (arith, kinds-length ts)
kinds-length (finishes_now ∷ ts) = omega (arith, kinds-length ts)
kinds-length (suspends ∷ ts) = omega (arith, kinds-length ts)

-- The children that finish at once count as so many completions, and the later ones come behind them.
complete_later-start_all :
    (k : ℕ) (ts : List Child) (c : WhenAllCtlBlock)
    → complete_later k (start_all ts c) ≡ complete_later (finished ts + k) c
unfolding start_all complete_later
complete_later-start_all k [] c =
    ap (λ n. complete_later n c) (let e : k ≡ 0 + k = omega arith in e)
complete_later-start_all k (no_handle ∷ ts) c = complete_later-start_all k ts c
complete_later-start_all k (finishes_now ∷ ts) c =
    let more : suc (finished ts + k) ≡ suc (finished ts) + k = omega arith in
    complete_later-start_all k ts (on_completed c) ∙ ap (λ n. complete_later n c) more
complete_later-start_all k (suspends ∷ ts) c = complete_later-start_all k ts c

on_completed-suc :
    (n r : ℕ)
    → on_completed (record { count = suc (suc n); resumes = r })
      ≡ record { count = suc n; resumes = r }
unfolding on_completed
on_completed-suc n r =
    let more : (suc n == 0) ≡ false = ground arith in
    ap (λ b. record { count = suc n; resumes = if b then suc r else r }) more

-- Up to `count` completions resume the coroutine once, at the last of them.
complete_later-resumes :
    (n count : ℕ)
    → n ≤ suc count
    → (complete_later n (record { count = suc count; resumes = 0 })).resumes
      ≡ (if n == suc count then 1 else 0)
unfolding complete_later on_completed
complete_later-resumes zero count h = ground arith
complete_later-resumes (suc zero) zero h = refl
complete_later-resumes (suc (suc n)) zero h = absurd (omega arith)
complete_later-resumes (suc n) (suc count) h =
    ap (λ c. (complete_later n c).resumes) (on_completed-suc count 0)
    ∙ complete_later-resumes n count (omega arith)
    ∙ ground arith

-- The coroutine that waits for some tasks is resumed once, at the moment when the last child
-- completes, whether the children finish at once or later, if every task has a coroutine. If one has none, it is never
-- resumed: that task is counted but never completes. Here `k` of the suspended children have completed.
pub await_suspend-resumes :
    (t : Child) (ts : List Child) (k : ℕ)
    → k ≤ suspended (t ∷ ts)
    → (complete_later k (await_suspend (t ∷ ts))).resumes
      ≡ (if (k == suspended (t ∷ ts)) && (empties (t ∷ ts) == 0) then 1 else 0)
unfolding await_suspend
await_suspend-resumes t ts k h =
    let all = kinds-length (t ∷ ts) in
    ap (λ c. c.resumes)
      (complete_later-start_all k (t ∷ ts) (record { count = length (t ∷ ts); resumes = 0 }))
    ∙ complete_later-resumes (finished (t ∷ ts) + k) (length ts) (omega (arith, all, h))
    ∙ ground (arith, all, h)
