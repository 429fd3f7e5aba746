-- ===== src/Notify/Examples.antt =====
-- Notifications at concrete inputs: three waiters, the first of them cancelled.
use co_wq.Prelude.{ℕ, ◌≡◌, refl, Bool, none, some, [], ◌∷◌, ◌==◌}
use co_wq.Notify.{
  check, Notify, nolock, spin_lock, inotify_cb, new_notify, regist, notify_one, count_one,
  post_check,
}
use co_wq.Notify.Waking.{Notified, inotify_cb-Notified, inotify_cb-spin_lock}

abbrev first_cancelled : ℕ → Bool
first_cancelled r = r == 1

abbrev one_notified : Notify
one_notified = notify_one (regist 3 (regist 2 (regist 1 (new_notify first_cancelled))))

one_notified_queue : one_notified.queue ≡ check ∷ []
unfolding notify_one count_one post_check regist new_notify
one_notified_queue = refl

inotify_cb-Notified_example :
    (s' : Notify) × (inotify_cb nolock one_notified ≡ some s') × Notified one_notified s'
unfolding notify_one count_one post_check regist new_notify
inotify_cb-Notified_example = inotify_cb-Notified one_notified refl

inotify_cb-spin_lock_example : inotify_cb spin_lock one_notified ≡ none
unfolding notify_one count_one post_check regist new_notify
inotify_cb-spin_lock_example = inotify_cb-spin_lock one_notified refl refl
