-- ===== src/Semaphore/Examples.antt =====
-- The semaphore at concrete inputs: one token, request 7 served and request 8 waiting.
use co_wq.Prelude.{ℕ, ◌+◌, ◌≡◌, refl, true, false, [], ◌∷◌, arith}
use co_wq.Semaphore.{
  Semaphore, ReqSta, req_fail, resume, sem_chk_cb, acquire, release, work_once, init, post_check,
  sweep,
}
use co_wq.Semaphore.Sweep.{Served, sem_chk_cb-Served}
use co_wq.Semaphore.Wakeup.{
  acquires, releases, works, Reach, here, next, IsValid, resumes, tokens, Reach-IsValid,
  Reach-tokens,
}
use co_wq.Semaphore.Awaiter.{Awaiter, on_event, on_timer, await_resume}
use co_wq.Semaphore.Awaiter.Race.{on_timer_granted}

abbrev junk : ℕ → ReqSta
junk _ = req_fail

abbrev one_token : Semaphore
one_token = init 1 1 junk

abbrev contended : Semaphore
contended = acquire 8 (acquire 7 one_token)

abbrev released : Semaphore
released = release (work_once contended)

served_next : (work_once released).queue ≡ resume 8 ∷ []
unfolding acquire release work_once init sem_chk_cb post_check sweep
served_next = refl

history : Reach one_token released 1 1
unfolding acquire release work_once init
history =
    next
      (next
        (next (next (here refl refl refl) (acquires 7 refl refl refl) refl refl)
          (acquires 8 refl refl refl) refl refl)
        (works refl refl refl) refl refl)
      (releases refl refl refl) refl refl

sem_chk_cb-Served_example : Served contended (sem_chk_cb contended)
sem_chk_cb-Served_example = sem_chk_cb-Served contended

Reach-IsValid_example : IsValid released
Reach-IsValid_example = Reach-IsValid 1 1 junk (omega arith) history

Reach-tokens_example : released.cur_val + resumes released.queue + 1 ≡ 2
Reach-tokens_example = Reach-tokens 1 1 junk (omega arith) history

-- Request 7 suspends on a semaphore in a given state.
abbrev waiter : Semaphore → Awaiter
waiter sem = record {
  sem = sem;
  req = 7;
  timeout_ms = 50;
  armed = true;
  immediate = false;
  timer = true;
  resumed = 0;
}

abbrev granted : Semaphore
granted = acquire 7 one_token

granted_queue : granted.queue ≡ resume 7 ∷ []
unfolding acquire init
granted_queue = refl

on_timer_granted_example :
    let late = on_event (on_timer (waiter granted)) in
    let after = work_once late.sem in
    (await_resume late ≡ false)
    × (late.resumed ≡ 1)
    × (after.cur_val ≡ granted.cur_val)
    × (tokens after + 1 ≡ tokens granted)
on_timer_granted_example = on_timer_granted (waiter granted) [] refl refl granted_queue
