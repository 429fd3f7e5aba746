-- ===== src/EpollReactor.antt =====
-- io/epoll_reactor.hpp: which waiters wait for which events of which descriptors, and their handing over to
-- the executor. A waiter is named by its address. `_fds` is a list of entries with different keys, in
-- the order of a traversal; the properties do not depend on it. `epoll_ctl` is a parameter.
pub mod Threads
pub mod Entries
pub mod Interest
pub mod Changes
pub mod Rounds
pub mod Wiring
pub mod Handover
pub mod Waking
mod Examples
use co_wq.Prelude.{
  ℕ, zero, suc, ◌^◌, ◌≤◌, Bool, true, false, not, ◌&&◌, ◌||◌, Option, none, some, List, [], ◌∷◌,
  ◌++◌, bit_and, bit_or, leb, ◌==◌, if◌then◌else◌,
}

-- `EPOLLIN` and its kind, with their documented values.
abbrev pub epollin : ℕ
epollin = 1

abbrev pub epollout : ℕ
epollout = 4

abbrev pub epollerr : ℕ
epollerr = 8

abbrev pub epollhup : ℕ
epollhup = 16

abbrev pub epollet : ℕ
epollet = 2 ^ 31

-- `epoll_ctl(_epfd, op, fd, events)`: it succeeds, or fails with `ENOENT`, or in another way.
pub data CtlOp : Type 0 where
  ctl_add ctl_mod ctl_del : CtlOp

pub data CtlResult : Type 0 where
  succeeded no_entry failed : CtlResult

pub record Epoll (K : Type 0) : Type 0 where
  pub epoll_ctl : CtlOp → ℕ → ℕ → K → CtlResult × K

pub record WaiterItem : Type 0 where
  pub mask : ℕ
  pub waiter : ℕ
  pub has_timeout : Bool
  pub deadline : ℕ

pub record FdState : Type 0 where
  pub waiters : List WaiterItem
  pub interest : ℕ

-- `resets` are the waiters whose `func` was set to `resume_cb`, `expired` those whose `timeout_func` was
-- called if they have one, and `posted` those handed over, each in the order of the calls.
pub record EpollReactor (K : Type 0) : Type 0 where
  pub fds : List (ℕ × FdState)
  pub kernel : K
  pub resets : List ℕ
  pub expired : List ℕ
  pub posted : List ℕ

unfoldable pub epoll_reactor : {K : Type 0} → K → EpollReactor K
epoll_reactor k = record { fds = []; kernel = k; resets = []; expired = []; posted = [] }

-- `_fds.find(fd)`, the entry set, and the entry erased.
abbrev pub find : ℕ → List (ℕ × FdState) → Option FdState
find fd [] = none
find fd ((key, st) ∷ fds) = if key == fd then some st else find fd fds

abbrev pub put : ℕ → FdState → List (ℕ × FdState) → List (ℕ × FdState)
put fd st [] = (fd, st) ∷ []
put fd st ((key, old) ∷ fds) =
    let rest = put fd st fds in if key == fd then (key, st) ∷ fds else (key, old) ∷ rest

abbrev pub erase : ℕ → List (ℕ × FdState) → List (ℕ × FdState)
erase fd [] = []
erase fd ((key, st) ∷ fds) = let rest = erase fd fds in if key == fd then fds else (key, st) ∷ rest

abbrev pub no_waiters : FdState
no_waiters = record { waiters = []; interest = 0 }

-- The entry of `_fds[fd]`, which is made if there is none.
abbrev pub state_of : Option FdState → FdState
state_of none = no_waiters
state_of (some st) = st

abbrev pub waiters_of : Option FdState → List WaiterItem
waiters_of none = []
waiters_of (some st) = st.waiters

abbrev pub names : List WaiterItem → List ℕ
names [] = []
names (wi ∷ ws) = wi.waiter ∷ names ws

-- The union of the masks.
abbrev pub union_from : ℕ → List WaiterItem → ℕ
union_from new_interest [] = new_interest
union_from new_interest (wi ∷ ws) = union_from (bit_or new_interest wi.mask) ws

abbrev pub events_of : ℕ → ℕ
events_of interest = bit_or (bit_or (bit_or interest epollerr) epollhup) epollet

-- `std::remove_if` with the moving lambda: the waiters that stay, and those that the test takes.
abbrev pub remove_if : (WaiterItem → Bool) → List WaiterItem → List WaiterItem × List WaiterItem
remove_if test [] = ([], [])
remove_if test (wi ∷ ws) =
    let (kept, taken) = remove_if test ws in
    if test wi then (kept, wi ∷ taken) else (wi ∷ kept, taken)

-- The tests of the two lambdas.
abbrev pub is_due : ℕ → WaiterItem → Bool
is_due now wi = wi.has_timeout && leb wi.deadline now

abbrev pub is_meant : ℕ → WaiterItem → Bool
is_meant flags wi =
    not (bit_and flags wi.mask == 0) || not (bit_and flags (bit_or epollerr epollhup) == 0)

-- What `epoll_wait` returned: events, none after 50 ms, `EINTR`, or another error.
pub data Waited : Type 0 where
  ready : List (ℕ × ℕ) → Waited
  interrupted broken : Waited

module _ {K : Type 0} (os : Epoll K) where
  -- `EPOLL_CTL_MOD`, and `EPOLL_CTL_ADD` where the descriptor is not there.
  abbrev pub add_if_absent : ℕ → ℕ → CtlResult × K → K
  add_if_absent fd events (succeeded, k) = k
  add_if_absent fd events (no_entry, k) = (os.epoll_ctl ctl_add fd events k).1
  add_if_absent fd events (failed, k) = k

  pub update_fd_interest_unlocked : ℕ → FdState → K → FdState × K
  update_fd_interest_unlocked fd st k =
      let new_interest = union_from 0 st.waiters in
      let st' = record st { interest = new_interest } in
      let events = events_of new_interest in
      if new_interest == st.interest
      then (st, k)
      else if new_interest == 0
      then (st', (os.epoll_ctl ctl_del fd 0 k).1)
      else (st', add_if_absent fd events (os.epoll_ctl ctl_mod fd events k))

  abbrev pub add_absent : ℕ → Option FdState → EpollReactor K → EpollReactor K
  add_absent fd none r = record r { fds = put fd no_waiters r.fds }
  add_absent fd (some st) r = r

  unfoldable pub add_fd : ℕ → EpollReactor K → EpollReactor K
  add_fd fd r = add_absent fd (find fd r.fds) r

  unfoldable pub register_waiter : ℕ → Bool → WaiterItem → EpollReactor K → EpollReactor K
  register_waiter fd preserve_func wi r =
      let st = state_of (find fd r.fds) in
      let (st', k) =
        update_fd_interest_unlocked fd (record st { waiters = st.waiters ++ wi ∷ [] }) r.kernel in
      record r {
        fds = put fd st' r.fds;
        kernel = k;
        resets = if preserve_func then r.resets else r.resets ++ wi.waiter ∷ [];
      }

  unfoldable pub add_waiter : ℕ → ℕ → ℕ → EpollReactor K → EpollReactor K
  add_waiter fd evmask waiter =
      register_waiter fd false
        (record { mask = evmask; waiter = waiter; has_timeout = false; deadline = 0 })

  pub add_waiter_custom : ℕ → ℕ → ℕ → EpollReactor K → EpollReactor K
  add_waiter_custom fd evmask waiter =
      register_waiter fd true
        (record { mask = evmask; waiter = waiter; has_timeout = false; deadline = 0 })

  -- `deadline` is the time of the call plus the timeout.
  unfoldable pub add_waiter_with_timeout : ℕ → ℕ → ℕ → ℕ → EpollReactor K → EpollReactor K
  add_waiter_with_timeout fd evmask waiter deadline =
      register_waiter fd false
        (record { mask = evmask; waiter = waiter; has_timeout = true; deadline = deadline })

  -- `remove_fd` up to the release of the lock, with `to_resume`, and the rest of it.
  abbrev pub unlist_fd : ℕ → EpollReactor K → List WaiterItem × EpollReactor K
  unlist_fd fd r = (waiters_of (find fd r.fds), record r { fds = erase fd r.fds })

  abbrev pub finish_removal : ℕ → List WaiterItem → EpollReactor K → EpollReactor K
  finish_removal fd to_resume r = record r {
    kernel = (os.epoll_ctl ctl_del fd 0 r.kernel).1;
    posted = r.posted ++ names to_resume;
  }

  -- The two parts with nothing between them.
  unfoldable pub remove_fd : ℕ → EpollReactor K → EpollReactor K
  remove_fd fd r = let (to_resume, r') = unlist_fd fd r in finish_removal fd to_resume r'

  -- The traversal of `_fds`: the entries and the kernel after it, and `timed_out`. `update` is called only
  -- for an entry that lost a waiter.
  abbrev pub after_removal : ℕ → FdState → List WaiterItem × List WaiterItem → K → FdState × K
  after_removal fd st (kept, []) k = (st, k)
  after_removal fd st (kept, wi ∷ taken) k =
      update_fd_interest_unlocked fd (record st { waiters = kept }) k

  pub collect_timeouts : ℕ → List (ℕ × FdState) → K → (List (ℕ × FdState) × K) × List WaiterItem
  collect_timeouts now [] k = (([], k), [])
  collect_timeouts now ((fd, st) ∷ fds) k =
      let (kept, taken) = remove_if (is_due now) st.waiters in
      let (st', k') = after_removal fd st (kept, taken) k in
      let ((fds', k''), timed_out) = collect_timeouts now fds k' in
      (((fd, st') ∷ fds', k''), taken ++ timed_out)

  pub handle_timeouts : List WaiterItem → EpollReactor K → EpollReactor K
  handle_timeouts [] r = r
  handle_timeouts (wi ∷ timed_out) r =
      handle_timeouts timed_out
        (record r { expired = r.expired ++ wi.waiter ∷ []; posted = r.posted ++ wi.waiter ∷ [] })

  pub check_timeouts : ℕ → EpollReactor K → EpollReactor K
  check_timeouts now r =
      let ((fds, k), timed_out) = collect_timeouts now r.fds r.kernel in
      handle_timeouts timed_out (record r { fds = fds; kernel = k })

  -- One event of `epoll_wait`. The entry is looked up again, since it may have gone.
  abbrev pub wake : ℕ → ℕ → Option FdState → EpollReactor K → EpollReactor K
  wake fd flags none r = r
  wake fd flags (some st) r =
      let (kept, to_resume) = remove_if (is_meant flags) st.waiters in
      let (st', k) = update_fd_interest_unlocked fd (record st { waiters = kept }) r.kernel in
      record r { fds = put fd st' r.fds; kernel = k; posted = r.posted ++ names to_resume }

  pub handle_event : ℕ → ℕ → EpollReactor K → EpollReactor K
  handle_event fd flags r = wake fd flags (find fd r.fds) r

  pub handle_events : List (ℕ × ℕ) → EpollReactor K → EpollReactor K
  handle_events [] r = r
  handle_events ((fd, flags) ∷ evs) r = handle_events evs (handle_event fd flags r)

  -- One round of `run_loop`, with the times of its two looks at the clock, and
  -- whether the loop goes on.
  abbrev pub after_wait : Waited → ℕ → EpollReactor K → Bool × EpollReactor K
  after_wait (ready []) now r = (true, r)
  after_wait (ready (ev ∷ evs)) now r = (true, check_timeouts now (handle_events (ev ∷ evs) r))
  after_wait interrupted now r = (true, r)
  after_wait broken now r = (false, r)

  pub run_round : ℕ → Waited → ℕ → EpollReactor K → Bool × EpollReactor K
  run_round now w later r = after_wait w later (check_timeouts now r)
