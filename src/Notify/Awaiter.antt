-- ===== src/Notify/Awaiter.antt =====
-- sync/inotify.hpp: `NotifyReqTimeoutAwaiter`, which waits for a notification or a time-out. Its two callbacks race
-- for `armed`.
use co_wq.Prelude.{
  ℕ, suc, ◌^◌, ◌-◌, ◌≡◌, refl, ap, ◌∙◌, Bool, true, false, not, List, [], ◌∷◌, ◌==◌, if◌then◌else◌,
}

-- `in_timer` tells whether the timer's node is in the timer queue, `resumes` counts the calls of
-- `mCoroutine.resume()` and `handle.resume()`.
pub record NotifyAwaiter : Type 0 where
  pub armed : Bool
  pub cancelled : Bool
  pub registered : Bool
  pub in_timer : Bool
  pub resumes : ℕ

abbrev pub no_timeout : ℕ
no_timeout = 2 ^ 32 - 1

-- `await_suspend` of a new awaiter.
unfoldable pub notify_await_suspend : ℕ → NotifyAwaiter
notify_await_suspend timeout_ms = record {
  armed = true;
  cancelled = false;
  registered = true;
  in_timer = not (timeout_ms == no_timeout);
  resumes = 0;
}

-- The awaiter's `func`, after a notification.
unfoldable pub on_notified : NotifyAwaiter → NotifyAwaiter
on_notified a =
    if not a.armed then a else record a { armed = false; in_timer = false; resumes = suc a.resumes }

-- `TimeoutNode::on_timer`. The timer queue has taken the node off before.
unfoldable pub on_timed_out : NotifyAwaiter → NotifyAwaiter
on_timed_out a =
    if not a.armed
    then a
    else record a { armed = false; cancelled = true; in_timer = false; resumes = suc a.resumes }

unfoldable pub notify_await_resume : NotifyAwaiter → Bool
notify_await_resume a = not a.cancelled

-- The destructor.
unfoldable pub end_awaiter : NotifyAwaiter → NotifyAwaiter
end_awaiter a = record a { in_timer = false; registered = false }

pub data Call : Type 0 where
  notified timed_out : Call

unfoldable pub called : Call → NotifyAwaiter → NotifyAwaiter
called notified a = on_notified a
called timed_out a = on_timed_out a

unfoldable pub all_called : List Call → NotifyAwaiter → NotifyAwaiter
all_called [] a = a
all_called (c ∷ cs) a = all_called cs (called c a)

abbrev pub is_notified : Call → Bool
is_notified notified = true
is_notified timed_out = false

idle : (c : Call) (a : NotifyAwaiter) → a.armed ≡ false → called c a ≡ a
unfolding called on_notified on_timed_out
idle notified a e =
    ap
      (λ b.
        if not b then a else record a { armed = false; in_timer = false; resumes = suc a.resumes })
      e
idle timed_out a e =
    ap
      (λ b. if not b then a else record a {
        armed = false;
        cancelled = true;
        in_timer = false;
        resumes = suc a.resumes;
      })
      e

settled : (cs : List Call) (a : NotifyAwaiter) → a.armed ≡ false → all_called cs a ≡ a
unfolding all_called
settled [] a e = refl
settled (c ∷ cs) a e = ap (all_called cs) (idle c a e) ∙ settled cs a e

-- Whatever the two callbacks do after the awaiter was suspended, and in whatever order: the first call resumes the
-- coroutine, and the others do nothing. It is resumed once, with success exactly if that was a notification,
-- and the timer is out of its queue.
pub all_called-await_suspend :
    (timeout_ms : ℕ) (c : Call) (cs : List Call)
    → (all_called (c ∷ cs) (notify_await_suspend timeout_ms)
        ≡ called c (notify_await_suspend timeout_ms))
      × ((all_called (c ∷ cs) (notify_await_suspend timeout_ms)).resumes ≡ 1)
      × (notify_await_resume (all_called (c ∷ cs) (notify_await_suspend timeout_ms))
          ≡ is_notified c)
      × ((all_called (c ∷ cs) (notify_await_suspend timeout_ms)).in_timer ≡ false)
unfolding all_called called on_notified on_timed_out notify_await_suspend notify_await_resume
all_called-await_suspend ms notified cs =
    let rest = settled cs (on_notified (notify_await_suspend ms)) refl in
    (rest, ap (λ a. a.resumes) rest, ap (λ a. not a.cancelled) rest, ap (λ a. a.in_timer) rest)
all_called-await_suspend ms timed_out cs =
    let rest = settled cs (on_timed_out (notify_await_suspend ms)) refl in
    (rest, ap (λ a. a.resumes) rest, ap (λ a. not a.cancelled) rest, ap (λ a. a.in_timer) rest)
