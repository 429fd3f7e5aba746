-- ===== src/Notify.antt =====
-- sync/inotify.hpp: `Notify`, which wakes registered coroutines, over the run queue of its executor. A request is
-- named by a number, its node's address. The counters are below the bounds of `int`.
pub mod Waking
pub mod Awaiter
mod Examples
use co_wq.Prelude.{
  ℕ, zero, suc, ◌+◌, ◌-◌, Bool, true, false, not, ◌&&◌, Option, none, some, List, [], ◌∷◌, ◌++◌,
  map, ltb, ◌==◌, if◌then◌else◌, length,
}

-- A node in the executor's queue: the `Notify` itself, whose `func` is `inotify_cb`, or a request, whose `func`
-- resumes its coroutine.
pub data Work : Type 0 where
  check : Work
  resume : ℕ → Work

-- `held` tells whether the thread that runs the callback holds the lock of the executor.
pub record Notify : Type 0 where
  pub acquire_list : List ℕ
  pub cancelled : ℕ → Bool
  pub notify_one_count : ℕ
  pub notify_all_count : ℕ
  pub queue : List Work
  pub trigs : ℕ
  pub held : Bool

-- The lock of the executor: `nolock`, or one that its holder cannot take again, such as `SpinLock`.
pub data Lock : Type 0 where
  nolock spin_lock : Lock

abbrev pub is_empty : List ℕ → Bool
is_empty [] = true
is_empty (x ∷ xs) = false

-- `list_del` of a node that is in the queue at most once.
abbrev pub same_work : Work → Work → Bool
same_work check check = true
same_work check (resume s) = false
same_work (resume r) check = false
same_work (resume r) (resume s) = r == s

abbrev pub unlink : Work → List Work → List Work
unlink w [] = []
unlink w (x ∷ xs) = let rest = unlink w xs in if same_work w x then xs else x ∷ rest

-- What `_executor.post(node)` does under the lock, and its `trig`.
abbrev pub post_work : Work → Notify → Notify
post_work w s = record s { queue = unlink w s.queue ++ w ∷ []; trigs = suc s.trigs }

-- The requests that the loop of `inotify_num` posts, in its order. `limited` is `req_cnt > 0`.
unfoldable pub chosen : (ℕ → Bool) → Bool → ℕ → List ℕ → List ℕ
chosen cancelled limited curcnt [] = []
chosen cancelled limited curcnt (r ∷ rs) =
    let skip = chosen cancelled limited curcnt rs in
    let rest = chosen cancelled limited (curcnt - 1) rs in
    if cancelled r then skip else if limited && curcnt == 0 then [] else r ∷ rest

-- `_executor.lock()` and `unlock()`. A thread waits forever, which is `none`, for a lock that it holds itself.
unfoldable pub take_lock : Lock → Notify → Option Notify
take_lock nolock s = some s
take_lock spin_lock s = if s.held then none else some (record s { held = true })

unfoldable pub drop_lock : Lock → Notify → Notify
drop_lock nolock s = s
drop_lock spin_lock s = record s { held = false }

abbrev pub and_then : {A B : Type 0} → Option A → (A → Option B) → Option B
and_then none f = none
and_then (some a) f = f a

-- `_executor.post(node)` as the thread makes it.
unfoldable pub post_locked : Lock → Work → Notify → Option Notify
post_locked lk w s = and_then (take_lock lk s) (λ t. some (drop_lock lk (post_work w t)))

unfoldable pub post_each : Lock → List ℕ → Notify → Option Notify
post_each lk [] s = some s
post_each lk (r ∷ rs) s = and_then (post_locked lk (resume r) s) (post_each lk rs)

-- `inotify_num(req_cnt)`, where `none` stands for -1: how many it posted, and the state after it.
abbrev pub limit_of : Option ℕ → ℕ
limit_of none = 0
limit_of (some n) = n

unfoldable pub inotify_num : Lock → Option ℕ → Notify → Option (ℕ × Notify)
inotify_num lk req_cnt s =
    let n = limit_of req_cnt in
    let rs = chosen s.cancelled (ltb 0 n) n s.acquire_list in
    and_then (take_lock lk s)
      (λ t. and_then (post_each lk rs t) (λ u. some (length rs, drop_lock lk u)))

abbrev pub trig_if : Option (ℕ × Notify) → Option Notify
trig_if none = none
trig_if (some (cnt, s)) = some (if ltb 0 cnt then record s { trigs = suc s.trigs } else s)

abbrev pub reset_counts : Bool → Option (ℕ × Notify) → Option (ℕ × Notify)
reset_counts all none = none
reset_counts all (some (cnt, s)) = some (
  cnt,
  record s { notify_one_count = 0; notify_all_count = if all then 0 else s.notify_all_count },
)

unfoldable pub inotify_cb : Lock → Notify → Option Notify
inotify_cb lk s =
    let all = ltb 0 s.notify_all_count in
    if is_empty s.acquire_list
    then some s
    else trig_if
        (reset_counts all (inotify_num lk (if all then none else some s.notify_one_count) s))

-- The calls below are made without the lock, which they take and give back, or do not need.
-- The two halves of `notify_all` and `notify_one`, between which another thread may run `inotify_cb`.
unfoldable pub count_all : Notify → Notify
count_all s = record s { notify_all_count = suc s.notify_all_count }

unfoldable pub count_one : Notify → Notify
count_one s = record s { notify_one_count = suc s.notify_one_count }

unfoldable pub post_check : Notify → Notify
post_check s = post_work check s

unfoldable pub notify_all : Notify → Notify
notify_all s = post_check (count_all s)

unfoldable pub notify_one : Notify → Notify
notify_one s = post_check (count_one s)

unfoldable pub regist : ℕ → Notify → Notify
regist r s = record s { acquire_list = s.acquire_list ++ r ∷ [] }

abbrev pub drop_request : ℕ → List ℕ → List ℕ
drop_request r [] = []
drop_request r (x ∷ xs) = let rest = drop_request r xs in if r == x then xs else x ∷ rest

unfoldable pub unregist : ℕ → Notify → Notify
unregist r s = record s { acquire_list = drop_request r s.acquire_list }

unfoldable pub new_notify : (ℕ → Bool) → Notify
new_notify cancelled = record {
  acquire_list = [];
  cancelled = cancelled;
  notify_one_count = 0;
  notify_all_count = 0;
  queue = [];
  trigs = 0;
  held = false;
}
