-- ===== src/Timer/Examples.antt =====
-- The timer queue at concrete inputs: three timers posted at time 10, and two of them due at 16.
use co_wq.Prelude.{◌≡◌, refl, true, false, [], ◌∷◌}
use co_wq.Timer.{
  nil, TimerQueue, post_delayed_work, cancel, tim_chk_cb, heap_meld, two_pass_merge, delete_min,
  pop_expired, size, hand_over, detach,
}
use co_wq.Timer.Merging.{count-nil}
use co_wq.Timer.Expiry.{IsValid, Fired, tim_chk_cb-Fired, named}
use co_wq.Timer.Scheduling.{Cancelled, cancel-Cancelled, post_delayed_work-Posted}

abbrev idle : TimerQueue
idle = record { heap_root = nil; owned = λ i. false; has_func = λ i. true; queue = []; trigs = 0 }

idle-IsValid : IsValid idle
idle-IsValid = record { root = tt; ordered = tt; owners = λ i. count-nil (named i) }

abbrev three_timers : TimerQueue
three_timers = post_delayed_work 10 3 6 (post_delayed_work 10 2 90 (post_delayed_work 10 1 5 idle))

three_timers-IsValid : IsValid three_timers
unfolding post_delayed_work
three_timers-IsValid =
    let one = post_delayed_work-Posted 10 1 5 idle idle-IsValid refl in
    let two = post_delayed_work-Posted 10 2 90 (post_delayed_work 10 1 5 idle) one.valid refl in
    (post_delayed_work-Posted 10 3 6 (post_delayed_work 10 2 90 (post_delayed_work 10 1 5 idle))
      two.valid refl).valid

due_timers : (tim_chk_cb 16 three_timers).queue ≡ 1 ∷ 3 ∷ []
unfolding tim_chk_cb post_delayed_work heap_meld two_pass_merge delete_min pop_expired size
    hand_over
due_timers = refl

cancelled_timer : (tim_chk_cb 16 (cancel 3 three_timers)).queue ≡ 1 ∷ []
unfolding tim_chk_cb cancel detach post_delayed_work heap_meld two_pass_merge delete_min pop_expired
    size hand_over
cancelled_timer = refl

tim_chk_cb-Fired_example : Fired 16 three_timers (tim_chk_cb 16 three_timers)
tim_chk_cb-Fired_example = tim_chk_cb-Fired 16 three_timers three_timers-IsValid

cancel-Cancelled_example : Cancelled 3 three_timers (cancel 3 three_timers)
cancel-Cancelled_example = cancel-Cancelled 3 three_timers three_timers-IsValid
