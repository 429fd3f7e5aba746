-- ===== src/Semaphore/Awaiter.antt =====
-- sync/semaphore.hpp: `SemReqTimeoutAwaiter`, one request with a timer. The timer's node and the
-- request's node race for `armed`.
pub mod Race
use co_wq.Prelude.{ℕ, suc, Bool, true, false, ◌||◌, ◌==◌, if◌then◌else◌}
use co_wq.Semaphore.{
  Semaphore, ReqSta, req_ok, req_fail, req_time_out, acquire, try_acquire, cancel_waiter,
}

-- The awaiter of request `req`. `timer` tells whether its timer is queued, and `resumed` counts the
-- calls of `handle.resume()`.
pub record Awaiter : Type 0 where
  pub sem : Semaphore
  pub req : ℕ
  pub timeout_ms : ℕ
  pub armed : Bool
  pub immediate : Bool
  pub timer : Bool
  pub resumed : ℕ

pub await_ready : Awaiter → Bool × Awaiter
await_ready a =
    let (got, sem) = try_acquire a.sem in
    (got, record a { sem = sem; immediate = if got then true else a.immediate })

abbrev pub infinite_ms : ℕ
infinite_ms = 0xffff_ffff

pub await_suspend : Awaiter → Awaiter
await_suspend a = record a {
  armed = true;
  timer = if a.timeout_ms == infinite_ms then a.timer else true;
  sem = acquire a.req a.sem;
}

-- `func`, which the executor calls once the request was granted or the semaphore destroyed.
pub on_event : Awaiter → Awaiter
on_event a =
    if a.armed then record a { armed = false; timer = false; resumed = suc a.resumed } else a

-- `TimeoutNode::on_timer`. The timer queue has taken the node off before it calls.
pub on_timer : Awaiter → Awaiter
on_timer a =
    if a.armed
    then (let sem = (cancel_waiter a.req a.sem).1 in
        record a {
          armed = false;
          timer = false;
          sem = record sem { req_sta = λ r. if r == a.req then req_time_out else sem.req_sta r };
          resumed = suc a.resumed;
        })
    else record a { timer = false }

pub is_ok : ReqSta → Bool
is_ok req_ok = true
is_ok req_fail = false
is_ok req_time_out = false

pub await_resume : Awaiter → Bool
unfolding is_ok
await_resume a = if a.immediate then true else is_ok (a.sem.req_sta a.req)
