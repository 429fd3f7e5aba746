-- ===== src/Task/Examples.antt =====
-- A coroutine that is suspended once and ended by a timer, and one that two threads destroy.
use co_wq.Prelude.{◌≡◌, refl, true, false, List, [], ◌∷◌}
use co_wq.Task.{
  Step, takes, ends, leaves, tests, apply, run, post, prepare_for_post, new_promise, post_to,
  enter_wk_cb, leave_running, destroy_if_done, call_user, on_completed_adapter,
}
use co_wq.Task.Lifetime.{Stage, run-Stage}

abbrev ended_by_timer : List Step
ended_by_timer = takes ∷ leaves ∷ tests ∷ ends ∷ takes ∷ leaves ∷ tests ∷ []

run-Stage_example : Stage true (run ended_by_timer (post_to true))
run-Stage_example = run-Stage true ended_by_timer tt

ended_by_timer-destroyed : (run ended_by_timer (post_to true)).destroyed ≡ 1
unfolding run apply post_to post prepare_for_post new_promise enter_wk_cb leave_running
    destroy_if_done on_completed_adapter call_user
ended_by_timer-destroyed = refl

-- With two threads: the coroutine ends on another one between the two last steps of `wk_cb`, and its frame
-- is destroyed twice.
abbrev ended_between : List Step
ended_between = takes ∷ leaves ∷ ends ∷ tests ∷ takes ∷ leaves ∷ tests ∷ []

ended_between-destroyed : (run ended_between (post_to false)).destroyed ≡ 2
unfolding run apply post_to post prepare_for_post new_promise enter_wk_cb leave_running
    destroy_if_done on_completed_adapter call_user
ended_between-destroyed = refl
