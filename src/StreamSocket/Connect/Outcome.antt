-- ===== src/StreamSocket/Connect/Outcome.antt =====
-- Every way in which a connect may go.
use co_wq.Prelude.{ℕ, ◌+◌, ◌≡◌, Bool, true, false, ◌&&◌, some, List, [], ◌∷◌, ◌++◌, if◌then◌else◌}
use co_wq.EpollReactor.{Epoll, EpollReactor, WaiterItem, find, epollout, FdState}
use co_wq.StreamSocket.{Errno, etimedout, Return, minus_one}
use co_wq.StreamSocket.Connect.{
  Connected, connected, not_connected, SockError, ConnectAwaiter, connect_timeout, in_progress,
  timeout_cb, error_return, connect_await_resume,
}

-- How the coroutine came to be resumed.
pub data Wake : Type 0 where
  by_event by_timeout : Wake

abbrev pub woken : Wake → ConnectAwaiter → ConnectAwaiter
woken by_event a = a
woken by_timeout a = timeout_cb a

-- Whether the connection is made at once, is still being made, or has failed.
abbrev pub made : Bool → Connected → Bool
made built connected = built
made built (not_connected e) = false

abbrev pub pending : Bool → Connected → Bool
pending built connected = false
pending built (not_connected e) = built && in_progress e

-- What the awaiter returns in the end: the kernel's verdict, if the connection was made or its descriptor
-- became writable in time.
abbrev pub verdict : Bool → Connected → Wake → SockError → Errno → Return
verdict built c by_event so saved =
    if made built c
    then error_return so
    else if pending built c
    then error_return so
    else minus_one saved
verdict built c by_timeout so saved =
    if pending built c
    then minus_one etimedout
    else if made built c
    then error_return so
    else minus_one saved

-- The last waiter of a descriptor.
abbrev pub LastWaiter : List WaiterItem → WaiterItem → Type 0
LastWaiter ws wi = (l : List WaiterItem) × (ws ≡ l ++ wi ∷ [])

module _ {K : Type 0} (os : Epoll K) where
  -- One connect of the waiter `w`, from `await_suspend` to what it returns: it waits, or posts itself at once.
  pub data Outcome (built : Bool) (c : Connected) (now fd w : ℕ) (r : EpollReactor K)
      (after : ConnectAwaiter × EpollReactor K) : Type 0 where
    waits :
        pending built c ≡ true
        → after.0.posts ≡ 0
        → (st : FdState) × (find fd after.1.fds ≡ some st)
          × LastWaiter st.waiters (record {
            mask = epollout;
            waiter = w;
            has_timeout = true;
            deadline = now + connect_timeout;
          })
        → ((wake : Wake) (so : SockError) (saved : Errno)
            → (connect_await_resume so saved (woken wake after.0)).0
              ≡ verdict built c wake so saved)
        → Outcome built c now fd w r after
    at_once :
        pending built c ≡ false
        → after.0.posts ≡ 1
        → after.1 ≡ r
        → ((so : SockError) (saved : Errno)
            → (connect_await_resume so saved after.0).0 ≡ verdict built c by_event so saved)
        → Outcome built c now fd w r after
