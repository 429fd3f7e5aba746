-- ===== src/Serial.antt =====
-- io/io_serial.hpp: the queue by which the awaiters of one socket or file take turns, and the drain
-- loop of an awaiter that holds the turn. A worknode is named by its address. `posted` holds the
-- nodes handed to the executor, in the order of the calls, so a node is posted when it gets the slot.
pub mod Turns
pub mod Closing
pub mod Draining
pub mod Events
pub mod Work
pub mod Examples
use co_wq.Prelude.{ℕ, zero, suc, ◌+◌, Bool, true, false, List, [], ◌∷◌, ◌++◌, if◌then◌else◌}

pub record SerialQueue : Type 0 where
  pub locked : Bool
  pub waiters : List ℕ

-- The queue with its executor.
pub record Slot : Type 0 where
  pub q : SerialQueue
  pub posted : List ℕ

unfoldable pub serial_queue_init : SerialQueue
serial_queue_init = record { locked = false; waiters = [] }

abbrev pub list_empty : List ℕ → Bool
list_empty [] = true
list_empty (x ∷ xs) = false

-- With it the result of the source: whether the slot was free.
pub serial_acquire_or_enqueue : ℕ → Slot → Bool × Slot
serial_acquire_or_enqueue node s =
    if s.q.locked
    then (false, record s { q = record s.q { waiters = s.q.waiters ++ node ∷ [] } })
    else if list_empty s.q.waiters
    then (true, record { q = record s.q { locked = true }; posted = s.posted ++ node ∷ [] })
    else (false, record s { q = record s.q { waiters = s.q.waiters ++ node ∷ [] } })

unfoldable pub release_to : List ℕ → Slot → Slot
release_to [] s = record s { q = record s.q { locked = false } }
release_to (next ∷ waiters) s = record {
  q = record s.q { waiters = waiters };
  posted = s.posted ++ next ∷ [];
}

unfoldable pub serial_release : Slot → Slot
serial_release s = release_to s.q.waiters s

-- `while (!list_empty(&q->waiters))`: each round moves one node to the end of `out_pending`.
pub move_all : List ℕ → List ℕ → List ℕ
move_all [] out_pending = out_pending
move_all (w ∷ ws) out_pending = move_all ws (out_pending ++ w ∷ [])

-- The queues after the call and `out_pending`. The queues are distinct objects.
unfoldable pub serial_collect_waiters : List SerialQueue → List ℕ → List SerialQueue × List ℕ
serial_collect_waiters [] out_pending = ([], out_pending)
serial_collect_waiters (q ∷ qs) out_pending =
    let rest = serial_collect_waiters qs (move_all q.waiters out_pending) in
    (record { locked = false; waiters = [] } ∷ rest.0, rest.1)

-- `node->func`, as far as this file sets it.
pub data Func : Type 0 where
  lock_acquired resume drive other : Func

-- The executor that takes a list: the nodes with their callbacks, and the number of `trig`s.
pub record Executor : Type 0 where
  pub queue : List (ℕ × Func)
  pub trigs : ℕ

abbrev pub with_resume : List ℕ → List (ℕ × Func)
with_resume [] = []
with_resume (n ∷ ns) = (n, resume) ∷ with_resume ns

-- `exec.post(pending)` splices the list behind the run queue and wakes the executor once.
pub serial_post_pending : List ℕ → Executor → Executor
serial_post_pending [] e = e
serial_post_pending (n ∷ ns) e = record {
  queue = e.queue ++ with_resume (n ∷ ns);
  trigs = suc e.trigs;
}

-- What `attempt_once` returns: a positive number, zero, or a negative one.
pub data Attempt : Type 0 where
  progress complete would_block : Attempt

-- An awaiter of the two-phase loop. `work` is what `attempt_once` works on, `waits` are the calls of
-- `register_wait` with their `first`, and `resumes` counts the calls of `h.resume()`.
pub record Drain (A : Type 0) : Type 0 where
  pub work : A
  pub func : Func
  pub waits : List Bool
  pub resumes : ℕ
  pub slot : Slot

-- How a call of the loop ends, or that the fuel ran out.
pub data Call (A : Type 0) : Type 0 where
  returned : Drain A → Call A
  running : Call A

module _ {A : Type 0} (attempt_once : A → Attempt × A) where
  -- The three results of one attempt, and the loop with the recursive call as `again`.
  abbrev pub after_attempt : Bool → Attempt → Drain A → Call A → Call A
  after_attempt first progress d again = again
  after_attempt first complete d again =
      returned (record d { func = resume; resumes = suc d.resumes; slot = serial_release d.slot })
  after_attempt first would_block d again =
      returned (record d { func = drive; waits = d.waits ++ first ∷ [] })

  unfoldable pub lock_acquired_cb : ℕ → Drain A → Call A
  lock_acquired_cb zero d = running
  lock_acquired_cb (suc fuel) d =
      let (r, work) = attempt_once d.work in
      let again = lock_acquired_cb fuel (record d { work = work }) in
      after_attempt true r (record d { work = work }) again

  unfoldable pub drive_cb : ℕ → Drain A → Call A
  drive_cb zero d = running
  drive_cb (suc fuel) d =
      let (r, work) = attempt_once d.work in
      let again = drive_cb fuel (record d { work = work }) in
      after_attempt false r (record d { work = work }) again
