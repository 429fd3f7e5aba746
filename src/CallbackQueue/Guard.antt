-- ===== src/CallbackQueue/Guard.antt =====
-- The guard that keeps a callback queue alive while its runner is scheduled.
use co_wq.Prelude.{ℕ, ◌≡◌, true, false, some, List, [], ◌∷◌}
use co_wq.CallbackQueue.{
  CallbackQueue, post, drain_entry, drain_from, drain_step, take_batch, release_from, release_guard,
  Event, posts, steps, releases, apply, run,
}

-- A queue whose drain holds it alive, has come to the end of its last batch, and has nothing pending.
abbrev pub at_end : CallbackQueue → CallbackQueue
at_end q = record q {
  draining = some (record { keep_alive = true; batch = [] });
  pending = [];
  leaving = [];
}

-- A thread posts the waiter `w` after the drain has left its loop, and before it looks at the guard.
abbrev pub overtaken : ℕ → List Event
overtaken w = steps ∷ posts w ∷ releases ∷ []

-- From any such state the runner ends up scheduled again for the new waiter, and nothing keeps the queue
-- alive for it: the drain that ended resets the guard that the new post has set, since both are the same
-- queue. The waiter must be sound and in no list.
pub run-overtaken :
    (w : ℕ) (q : CallbackQueue)
    → q.valid_magic w ≡ true
    → q.enqueued w ≡ false
    → ((run (overtaken w) (at_end q)).scheduled ≡ true)
      × ((run (overtaken w) (at_end q)).has_guard ≡ false)
      × ((run (overtaken w) (at_end q)).pending ≡ w ∷ [])
unfolding run apply post drain_step drain_from drain_entry take_batch release_guard release_from
run-overtaken w q good free = (rw (good, free), rw (good, free), rw (good, free))
