-- ===== src/Task.antt =====
-- task/worker.hpp: a coroutine that was posted to an executor and detached, from `post_to` until its frame is
-- destroyed. The executor destroys the frame, in `wk_cb`: where the coroutine ends within it, or in a second call,
-- for which the node is posted at the end. The coroutine may be resumed by others, too: a timer or a reactor.
-- The executor is never null.
pub mod Lifetime
pub mod Awaiting
mod Examples
use co_wq.Prelude.{ℕ, suc, Bool, true, false, not, ◌&&◌, ◌||◌, if◌then◌else◌, List, [], ◌∷◌, ◌==◌}

-- The callback of the promise's node.
pub data Func : Type 0 where
  wk_cb destroy_on_executor : Func

-- `queued` tells whether the node is in the run queue, `started` whether the coroutine was resumed first, `done` whether
-- it is at its final suspension, and `in_wk_cb` whether `wk_cb` has resumed it and not come back. `leaving` tells whether `wk_cb` stands before its
-- test of `done`. Two counts: the
-- calls of the user's callback, and those of `coro.destroy()`.
pub record WorkPromise : Type 0 where
  pub running_on_executor : Bool
  pub completion_posted : Bool
  pub user_on_completed : Bool
  pub func : Func
  pub queued : Bool
  pub in_wk_cb : Bool
  pub leaving : Bool
  pub started : Bool
  pub done : Bool
  pub user_calls : ℕ
  pub destroyed : ℕ

-- A new promise.
unfoldable pub new_promise : WorkPromise
new_promise = record {
  running_on_executor = false;
  completion_posted = false;
  user_on_completed = false;
  func = wk_cb;
  queued = false;
  in_wk_cb = false;
  leaving = false;
  started = false;
  done = false;
  user_calls = 0;
  destroyed = 0;
}

-- `post(wq)`
unfoldable pub post : WorkPromise → WorkPromise
post p = record p { func = wk_cb; queued = true }

-- `has_callback` tells whether the promise has an `mOnCompleted` of the user's.
unfoldable pub prepare_for_post : Bool → WorkPromise → WorkPromise
prepare_for_post has_callback p = record p {
  user_on_completed = has_callback;
  completion_posted = false;
}

-- `post_to`, for a new task.
unfoldable pub post_to : Bool → WorkPromise
post_to has_callback = post (prepare_for_post has_callback new_promise)

-- `wk_cb` up to the call of `resume`, which is made for a coroutine that has not ended.
unfoldable pub enter_wk_cb : WorkPromise → WorkPromise
enter_wk_cb p = record p {
  running_on_executor = true;
  in_wk_cb = true;
  started = p.started || not p.done;
}

-- `wk_cb` behind that call: first the flag, then the test.
unfoldable pub leave_running : WorkPromise → WorkPromise
leave_running p = record p { running_on_executor = false; in_wk_cb = false; leaving = true }

unfoldable pub destroy_if_done : WorkPromise → WorkPromise
destroy_if_done p =
    if p.done
    then record p {
      leaving = false;
      completion_posted = false;
      user_on_completed = false;
      destroyed = suc p.destroyed;
    }
    else record p { leaving = false }

unfoldable pub call_user : WorkPromise → WorkPromise
call_user p = record p {
  user_calls = if p.user_on_completed then suc p.user_calls else p.user_calls;
}

-- `on_completed_adapter`, which `FinalAwaiter::await_suspend` calls.
unfoldable pub on_completed_adapter : WorkPromise → WorkPromise
on_completed_adapter p =
    let q = call_user p in
    if not q.completion_posted && not q.running_on_executor
    then post (record q { completion_posted = true; func = destroy_on_executor })
    else q

-- The executor calls the node.
abbrev pub call_func : Func → WorkPromise → WorkPromise
call_func wk_cb p = enter_wk_cb p
call_func destroy_on_executor p = record p { destroyed = suc p.destroyed }

-- What may happen: the executor takes the node; the coroutine ends, resumed by `wk_cb` or by somebody else; `wk_cb` gets
-- control back, as the coroutine was suspended or has ended, and resets the flag; and `wk_cb` tests `done`.
pub data Step : Type 0 where
  takes ends leaves tests : Step

unfoldable pub apply : Step → WorkPromise → WorkPromise
apply takes p = if p.queued then call_func p.func (record p { queued = false }) else p
apply ends p =
    if p.started && not p.done then on_completed_adapter (record p { done = true }) else p
apply leaves p = if p.in_wk_cb then leave_running p else p
apply tests p = if p.leaving then destroy_if_done p else p

unfoldable pub run : List Step → WorkPromise → WorkPromise
run [] p = p
run (s ∷ ss) p = run ss (apply s p)
