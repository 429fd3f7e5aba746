-- ===== src/Semaphore/Awaiter/Race.antt =====
-- The race between a grant and the timer.
use co_wq.Prelude.{ℕ, suc, ◌+◌, ◌<◌, ◌≡◌, refl, ◌⊎◌, inl, true, false, List, ◌∷◌, [], arith}
use co_wq.Semaphore.{Semaphore, Work, resume, acquire, cancel_waiter, work_once}
use co_wq.Semaphore.Wakeup.{tokens}
use co_wq.Semaphore.Awaiter.{Awaiter, await_suspend, on_event, on_timer, await_resume, is_ok}

-- What may happen to a suspended awaiter: its two callbacks, and what others do to the semaphore.
pub data Event : Type 0 where
  event timeout : Event
  others : Semaphore → Event

pub step : Awaiter → Event → Awaiter
step a event = on_event a
step a timeout = on_timer a
step a (others sem) = record a { sem = sem }

pub run : Awaiter → List Event → Awaiter
run a [] = a
run a (e ∷ es) = run (step a e) es

-- Armed and not resumed, or resumed and no longer armed.
abbrev pub Settled : ℕ → Awaiter → Type 0
Settled before a =
    ((a.armed ≡ true) × (a.resumed ≡ before)) ⊎ ((a.armed ≡ false) × (a.resumed ≡ before + 1))

step-Settled : (n : ℕ) (a : Awaiter) (e : Event) → Settled n a → Settled n (step a e)
unfolding step on_event on_timer
step-Settled n a event h = ground arith
step-Settled n a timeout h = ground arith
step-Settled n a (others sem) h = h

run-Settled : (n : ℕ) (a : Awaiter) (es : List Event) → Settled n a → Settled n (run a es)
unfolding run
run-Settled n a [] h = h
run-Settled n a (e ∷ es) h = run-Settled n (step a e) es (step-Settled n a e h)

-- In any interleaving of grants, time-outs and other calls, the coroutine that suspended is resumed
-- at most once, and it has been resumed exactly when `armed` is gone.
pub run-await_suspend :
    (a : Awaiter) (es : List Event) → Settled a.resumed (run (await_suspend a) es)
unfolding await_suspend
run-await_suspend a es = run-Settled a.resumed (await_suspend a) es (inl (refl, refl))

-- A time-out that wins before any grant takes the request off the waiters, keeps all tokens, and
-- the awaiter reports failure. `await_ready` had not taken a token.
pub on_timer_waiting :
    (a : Awaiter)
    → a.armed ≡ true
    → a.immediate ≡ false
    → (await_resume (on_timer a) ≡ false)
      × (tokens (on_timer a).sem ≡ tokens a.sem)
      × ((on_timer a).sem.acquire_list ≡ (cancel_waiter a.req a.sem).1.acquire_list)
      × ((on_timer a).sem.cancelled a.req ≡ true)
unfolding on_timer await_resume cancel_waiter
on_timer_waiting a h i = ground arith

-- A time-out that wins after the grant loses the token: the request's node stands first in the run
-- queue, the timer runs before it, and the node then finds `armed` gone. The waiter is told that it
-- timed out, and its token is neither taken by it nor given back.
pub on_timer_granted :
    (a : Awaiter) (ws : List Work)
    → a.armed ≡ true
    → a.immediate ≡ false
    → a.sem.queue ≡ resume a.req ∷ ws
    → let late = on_event (on_timer a) in
      let after = work_once late.sem in
      (await_resume late ≡ false)
      × (late.resumed ≡ suc a.resumed)
      × (after.cur_val ≡ a.sem.cur_val)
      × (tokens after + 1 ≡ tokens a.sem)
unfolding on_timer on_event await_resume cancel_waiter work_once
on_timer_granted a ws h i e = ground arith

-- A token that is free when the coroutine suspends is granted at once, but nothing sets `req_sta`:
-- the awaiter reports whatever the request held before it was constructed.
pub on_event-await_suspend :
    (a : Awaiter)
    → 0 < a.sem.cur_val
    → a.immediate ≡ false
    → let b = on_event (await_suspend a) in
      (await_resume b ≡ is_ok (a.sem.req_sta a.req)) × (b.sem.cur_val + 1 ≡ a.sem.cur_val)
unfolding on_event await_suspend await_resume acquire
on_event-await_suspend a h i = ground arith
