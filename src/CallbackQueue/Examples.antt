-- ===== src/CallbackQueue/Examples.antt =====
-- The callback queue at concrete inputs: two waiters posted, one of them twice, and a third in between.
use co_wq.Prelude.{ℕ, ◌≡◌, refl, Bool, true, List, [], ◌∷◌, ◌++◌, arith}
use co_wq.CallbackQueue.{
  CallbackQueue, new_queue, post, runner_cb, take_batch, run_entry, drain_entry, drain_from,
  drain_step, Event, posts, starts, steps, apply, run,
}
use co_wq.CallbackQueue.Order.{IsOrdered, batch_of, waiters_of, run-new_queue-IsOrdered}
use co_wq.CallbackQueue.Draining.{Settled, many_steps, run-starts-Settled}

abbrev always : ℕ → Bool
always w = true

abbrev history : List Event
history = posts 1 ∷ posts 2 ∷ posts 1 ∷ starts ∷ steps ∷ steps ∷ posts 3 ∷ posts 1 ∷ []

abbrev busy : CallbackQueue
busy = run history (new_queue always always)

history_log : busy.accepted ≡ 1 ∷ 2 ∷ 3 ∷ 1 ∷ []
unfolding run apply new_queue post runner_cb drain_step drain_from drain_entry take_batch run_entry
history_log = refl

run-new_queue-IsOrdered_example : IsOrdered (run history (new_queue always always))
run-new_queue-IsOrdered_example = run-new_queue-IsOrdered history always always

run-starts-Settled_example :
    Settled (batch_of busy.draining ++ busy.pending) busy (run (starts ∷ many_steps 6) busy)
    × (waiters_of (run (starts ∷ many_steps 6) busy).handled ≡ busy.accepted)
unfolding run apply new_queue post runner_cb drain_step drain_from drain_entry take_batch run_entry
run-starts-Settled_example = run-starts-Settled history always always 6 busy refl (omega arith)
