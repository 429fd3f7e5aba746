-- ===== src/Notify/Waking.antt =====
-- Whom a notification wakes, and that with a lock that is not reentrant it wakes nobody.
use co_wq.Prelude.{
  ℕ, zero, suc, ◌+◌, ◌-◌, ◌≡◌, refl, ap, ◌∙◌, inl, inr, Bool, true, false, Option, none, some, List,
  [], ◌∷◌, ◌++◌, ltb, ◌==◌, if◌then◌else◌, length, take, Bool-cases, arith,
}
use co_wq.Notify.{
  Work, resume, Notify, Lock, nolock, spin_lock, is_empty, unlink, post_work, chosen, take_lock,
  drop_lock, and_then, post_locked, post_each, limit_of, inotify_num, trig_if, reset_counts,
  inotify_cb,
}

-- The requests that were not cancelled, in the order of registration.
abbrev pub live : (ℕ → Bool) → List ℕ → List ℕ
live cancelled [] = []
live cancelled (r ∷ rs) = let rest = live cancelled rs in if cancelled r then rest else r ∷ rest

-- Whom the counters ask to wake. With neither a count of ones nor of alls it is all of them.
abbrev pub asked : Notify → List ℕ
asked s =
    if ltb 0 s.notify_all_count
    then live s.cancelled s.acquire_list
    else if ltb 0 s.notify_one_count
    then take s.notify_one_count (live s.cancelled s.acquire_list)
    else live s.cancelled s.acquire_list

chosen-live : (c : ℕ → Bool) (n : ℕ) (rs : List ℕ) → chosen c false n rs ≡ live c rs
unfolding chosen
chosen-live c n [] = refl
chosen-live c n (r ∷ rs) = elim (Bool-cases (c r)) [
  | inl gone ↦ rw gone (chosen-live c n rs)
  | inr here ↦ rw here (ap (◌∷◌ r) (chosen-live c (n - 1) rs))
]

chosen-take : (c : ℕ → Bool) (n : ℕ) (rs : List ℕ) → chosen c true n rs ≡ take n (live c rs)
unfolding chosen
chosen-take c zero [] = refl
chosen-take c (suc n) [] = refl
chosen-take c zero (r ∷ rs) = elim (Bool-cases (c r)) [
  | inl gone ↦ rw gone (chosen-take c zero rs)
  | inr here ↦ rw here refl
]
chosen-take c (suc n) (r ∷ rs) = elim (Bool-cases (c r)) [
  | inl gone ↦ rw gone (chosen-take c (suc n) rs)
  | inr here ↦
      let less : suc n - 1 ≡ n = omega arith in
      let more : (suc n == 0) ≡ false = ground arith in
      rw (here, more) (ap (◌∷◌ r) (ap (λ m. chosen c true m rs) less ∙ chosen-take c n rs))
]

chosen-limit :
    (c : ℕ → Bool) (n : ℕ) (rs : List ℕ)
    → chosen c (ltb 0 n) n rs ≡ (if ltb 0 n then take n (live c rs) else live c rs)
chosen-limit c zero rs = chosen-live c 0 rs
chosen-limit c (suc n) rs =
    let some : ltb 0 (suc n) ≡ true = ground arith in rw some (chosen-take c (suc n) rs)

-- The loop posts those that are asked for.
cb-asked :
    (s : Notify)
    → (let n = limit_of (if ltb 0 s.notify_all_count then none else some s.notify_one_count) in
        chosen s.cancelled (ltb 0 n) n s.acquire_list)
      ≡ asked s
cb-asked s = elim (Bool-cases (ltb 0 s.notify_all_count)) [
  | inl all ↦ rw all (chosen-live s.cancelled 0 s.acquire_list)
  | inr ones ↦ rw ones (chosen-limit s.cancelled s.notify_one_count s.acquire_list)
]

-- The state after posts in a row.
abbrev pub post_all : List ℕ → Notify → Notify
post_all [] s = s
post_all (r ∷ rs) s = post_all rs (post_work (resume r) s)

unlocked : (rs : List ℕ) (s : Notify) → post_each nolock rs s ≡ some (post_all rs s)
unfolding post_each post_locked take_lock drop_lock
unlocked [] s = refl
unlocked (r ∷ rs) s = unlocked rs (post_work (resume r) s)

-- The queue after posts in a row: those posted stand at its end, in order, and each of them only there.
abbrev pub requeue : List ℕ → List Work → List Work
requeue [] q = q
requeue (r ∷ rs) q = requeue rs (unlink (resume r) q ++ resume r ∷ [])

posted-queue : (rs : List ℕ) (s : Notify) → (post_all rs s).queue ≡ requeue rs s.queue
posted-queue [] s = refl
posted-queue (r ∷ rs) s = posted-queue rs (post_work (resume r) s)

posted-trigs : (rs : List ℕ) (s : Notify) → (post_all rs s).trigs ≡ s.trigs + length rs
posted-trigs [] s = omega arith
posted-trigs (r ∷ rs) s = omega (arith, posted-trigs rs (post_work (resume r) s))

posted-list : (rs : List ℕ) (s : Notify) → (post_all rs s).acquire_list ≡ s.acquire_list
posted-list [] s = refl
posted-list (r ∷ rs) s = posted-list rs (post_work (resume r) s)

-- What one run of the callback did that came back.
pub record Notified (s s' : Notify) : Type 0 where
  pub woken : s'.queue ≡ requeue (asked s) s.queue
  pub stay : s'.acquire_list ≡ s.acquire_list
  pub wakes : s'.trigs ≡ s.trigs + length (asked s) + (if ltb 0 (length (asked s)) then 1 else 0)
  pub reset : s'.notify_one_count ≡ 0
  pub reset_all : s'.notify_all_count ≡ 0

posted-alls : (rs : List ℕ) (s : Notify) → (post_all rs s).notify_all_count ≡ s.notify_all_count
posted-alls [] s = refl
posted-alls (r ∷ rs) s = posted-alls rs (post_work (resume r) s)

abbrev outcome : Lock → List ℕ → Notify → Option Notify
outcome lk rs s = trig_if (
    reset_counts (ltb 0 s.notify_all_count) (
      and_then (take_lock lk s)
        (λ t. and_then (post_each lk rs t) (λ u. some (length rs, drop_lock lk u)))))

-- The state behind the posts, with the counters reset and the last wake-up.
abbrev notified : List ℕ → Notify → Notify
notified rs s =
    let p = post_all rs s in
    record p {
      notify_one_count = 0;
      notify_all_count = if ltb 0 s.notify_all_count then 0 else p.notify_all_count;
      trigs = if ltb 0 (length rs) then suc p.trigs else p.trigs;
    }

if-notified :
    (b : Bool) (x : Notify)
    → (if b then record x { trigs = suc x.trigs } else x)
      ≡ record x { trigs = if b then suc x.trigs else x.trigs }
if-notified true x = refl
if-notified false x = refl

notified-Notified : (s : Notify) → Notified s (notified (asked s) s)
notified-Notified s = record {
  woken = posted-queue (asked s) s;
  stay = posted-list (asked s) s;
  wakes = ground (arith, posted-trigs (asked s) s);
  reset = refl;
  reset_all = ground (arith, posted-alls (asked s) s);
}

-- `inotify_cb` on a list that somebody is in.
cb-outcome :
    (lk : Lock) (s : Notify)
    → is_empty s.acquire_list ≡ false
    → inotify_cb lk s ≡ outcome lk (asked s) s
unfolding inotify_cb inotify_num
cb-outcome lk s e = rw e (ap (λ rs. outcome lk rs s) (cb-asked s))

free :
    (rs : List ℕ) (s : Notify)
    → outcome nolock rs s
      ≡ trig_if (reset_counts (ltb 0 s.notify_all_count) (some (length rs, post_all rs s)))
unfolding take_lock drop_lock
free rs s =
    ap
      (λ o.
        trig_if (reset_counts (ltb 0 s.notify_all_count) (and_then o (λ u. some (length rs, u)))))
      (unlocked rs s)

-- On an executor without a lock one run of the callback, while somebody is registered, posts the requests that are
-- not cancelled, in the order of registration: as many as `notify_one` was called since the last run, or all
-- after `notify_all`, and all too where it runs with no count at all. Each stands behind the run queue and in
-- no other place of it, the executor is woken for each and once more, the requests stay registered, and the
-- counts start anew.
pub inotify_cb-Notified :
    (s : Notify)
    → is_empty s.acquire_list ≡ false
    → (s' : Notify) × (inotify_cb nolock s ≡ some s') × Notified s s'
inotify_cb-Notified s e = (
  notified (asked s) s,
  cb-outcome nolock s e ∙ free (asked s) s ∙ ap some (if-notified (ltb 0 (length (asked s))) _),
  notified-Notified s,
)

-- What the callback does under a lock that its holder cannot take again.
abbrev pub under_spin_lock : List ℕ → Notify → Option Notify
under_spin_lock [] s = some (record s {
  notify_one_count = 0;
  notify_all_count = if ltb 0 s.notify_all_count then 0 else s.notify_all_count;
  held = false;
})
under_spin_lock (r ∷ rs) s = none

locked : (rs : List ℕ) (s : Notify) → s.held ≡ false → outcome spin_lock rs s ≡ under_spin_lock rs s
unfolding take_lock drop_lock post_each post_locked
locked [] s e = rw e refl
locked (r ∷ rs) s e = rw e refl

-- On an executor whose lock its holder cannot take again, such as `SpinLock`, and which the thread does not hold yet,
-- the callback returns exactly if it has nobody to wake: then it resets the counts, posts nothing and has given
-- the lock back. Else it never returns, as its first post waits for the lock that the thread holds.
pub inotify_cb-spin_lock :
    (s : Notify)
    → s.held ≡ false
    → is_empty s.acquire_list ≡ false
    → inotify_cb spin_lock s ≡ under_spin_lock (asked s) s
inotify_cb-spin_lock s h e = cb-outcome spin_lock s e ∙ locked (asked s) s h
