-- ===== src/CallbackQueue.antt =====
-- io/callback_wq.hpp: the queue that runs the callbacks of one owner in order, on a shared executor. A
-- waiter is named by its address. Each step of the model is one that the lock `lk` or the
-- executor makes atomic, so a run is a sequence of steps of any threads. A pointer is always plausible
-- (`is_pointer_plausible` is true off Windows), and a waiter that is posted is not null.
pub mod Order
pub mod Draining
pub mod Guard
mod Examples
use co_wq.Prelude.{
  ℕ, Bool, true, false, not, ◌&&◌, Option, none, some, List, [], ◌∷◌, ◌++◌, ◌==◌, if◌then◌else◌,
}

-- A drain that is running: whether its `keep_alive` holds the queue, and its `local` list.
pub record Drain : Type 0 where
  pub keep_alive : Bool
  pub batch : List ℕ

-- `has_guard` tells whether `runner.guard` is set, `scheduled` whether the runner node is in the executor's
-- queue, `draining` is the drain before its end, and `leaving` holds the `keep_alive` of the drains that
-- have left their loop and not yet looked at the guard. `enqueued`, `valid_magic` and `has_func` are
-- fields of the waiters. Two logs: the waiters that `post` took, and those that a drain took off,
-- each with whether its `func` was called.
pub record CallbackQueue : Type 0 where
  pub pending : List ℕ
  pub running : Bool
  pub has_guard : Bool
  pub scheduled : Bool
  pub draining : Option Drain
  pub leaving : List Bool
  pub enqueued : ℕ → Bool
  pub valid_magic : ℕ → Bool
  pub has_func : ℕ → Bool
  pub accepted : List ℕ
  pub handled : List (ℕ × Bool)

abbrev pub set_flag : ℕ → Bool → (ℕ → Bool) → ℕ → Bool
set_flag w b f a = if a == w then b else f a

-- `state(exec)`, for waiters that are in no queue.
pub new_queue : (valid_magic has_func : ℕ → Bool) → CallbackQueue
new_queue valid_magic has_func = record {
  pending = [];
  running = false;
  has_guard = false;
  scheduled = false;
  draining = none;
  leaving = [];
  enqueued = λ w. false;
  valid_magic = valid_magic;
  has_func = has_func;
  accepted = [];
  handled = [];
}

-- `list_add_tail` of a new entry, with `callback_enqueued` exchanged for true.
abbrev link_entry : ℕ → CallbackQueue → CallbackQueue
link_entry w q = record q {
  pending = q.pending ++ w ∷ [];
  enqueued = set_flag w true q.enqueued;
  accepted = q.accepted ++ w ∷ [];
}

-- `if (!running)`: the runner gets its guard, and is posted to the executor.
abbrev schedule : CallbackQueue → CallbackQueue
schedule q =
    if q.running then q else record q { running = true; has_guard = true; scheduled = true }

pub post : ℕ → CallbackQueue → CallbackQueue
post w q =
    if not (q.valid_magic w) then q else if q.enqueued w then q else schedule (link_entry w q)

-- The executor calls `runner_cb`.
pub runner_cb : CallbackQueue → CallbackQueue
runner_cb q =
    if q.scheduled
    then record q {
      scheduled = false;
      draining = some (record { keep_alive = q.has_guard; batch = [] });
    }
    else q

abbrev pub is_empty : List ℕ → Bool
is_empty [] = true
is_empty (x ∷ xs) = false

-- The locked part of a round: the end of the drain, or the whole of `pending` as the next batch.
pub take_batch : Bool → CallbackQueue → CallbackQueue
take_batch keep_alive q =
    if is_empty q.pending
    then record q { running = false; draining = none; leaving = keep_alive ∷ q.leaving }
    else record q {
      pending = [];
      draining = some (record { keep_alive = keep_alive; batch = q.pending });
    }

-- One entry of the batch: the waiter may be posted again from here on, and its `func` is called if the
-- waiter is sound.
pub run_entry : Bool → ℕ → List ℕ → CallbackQueue → CallbackQueue
run_entry keep_alive w ws q = record q {
  draining = some (record { keep_alive = keep_alive; batch = ws });
  enqueued = set_flag w false q.enqueued;
  handled = q.handled ++ (w, q.has_func w && q.valid_magic w) ∷ [];
}

-- One step of `drain`.
pub drain_entry : Bool → List ℕ → CallbackQueue → CallbackQueue
drain_entry keep_alive [] q = take_batch keep_alive q
drain_entry keep_alive (w ∷ ws) q = run_entry keep_alive w ws q

pub drain_from : Option Drain → CallbackQueue → CallbackQueue
drain_from none q = q
drain_from (some d) q = drain_entry d.keep_alive d.batch q

pub drain_step : CallbackQueue → CallbackQueue
drain_step q = drain_from q.draining q

-- The end of `drain`, outside the lock: `runner.guard` is reset if it is what `keep_alive` is.
pub release_from : List Bool → CallbackQueue → CallbackQueue
release_from [] q = q
release_from (keep_alive ∷ ks) q = record q {
  leaving = ks;
  has_guard = q.has_guard && not keep_alive;
}

pub release_guard : CallbackQueue → CallbackQueue
release_guard q = release_from q.leaving q

-- What may happen next: any thread posts a waiter, the executor starts the runner, the drain makes a
-- step, a drain looks at the guard, or the owner of a waiter changes its magic or its `func`.
pub data Event : Type 0 where
  posts : ℕ → Event
  starts steps releases : Event
  sets_magic sets_func : ℕ → Bool → Event

pub apply : Event → CallbackQueue → CallbackQueue
apply (posts w) q = post w q
apply starts q = runner_cb q
apply steps q = drain_step q
apply releases q = release_guard q
apply (sets_magic w b) q = record q { valid_magic = set_flag w b q.valid_magic }
apply (sets_func w b) q = record q { has_func = set_flag w b q.has_func }

pub run : List Event → CallbackQueue → CallbackQueue
run [] q = q
run (e ∷ es) q = run es (apply e q)
