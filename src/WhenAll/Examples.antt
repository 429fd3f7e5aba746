-- ===== src/WhenAll/Examples.antt =====
-- Three tasks, one of which finishes at once, and the same with a task that has no coroutine.
use co_wq.Prelude.{◌≡◌, refl, [], ◌∷◌, arith}
use co_wq.WhenAll.{
  no_handle, finishes_now, suspends, on_completed, start_all, await_suspend, complete_later,
}
use co_wq.WhenAll.Completion.{await_suspend-resumes}

all_done : (complete_later 2 (await_suspend (suspends ∷ finishes_now ∷ suspends ∷ []))).resumes ≡ 1
unfolding complete_later await_suspend start_all on_completed
all_done = refl

never_resumed : (complete_later 1 (await_suspend (suspends ∷ no_handle ∷ []))).resumes ≡ 0
unfolding complete_later await_suspend start_all on_completed
never_resumed = refl

await_suspend-resumes_example :
    (complete_later 2 (await_suspend (suspends ∷ finishes_now ∷ suspends ∷ []))).resumes ≡ 1
await_suspend-resumes_example =
    await_suspend-resumes suspends (finishes_now ∷ suspends ∷ []) 2 (omega arith)
