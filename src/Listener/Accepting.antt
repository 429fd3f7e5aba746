-- ===== src/Listener/Accepting.antt =====
-- What `accept` takes from the queue of connections, and what closing the listener does to those who wait.
use co_wq.Prelude.{
  ℕ, ◌≡◌, refl, sym, ap, subst, ◌∙◌, false, Option, none, some, List, [], ◌∷◌, ◌++◌, Bool-cases,
  inl, inr,
}
use co_wq.EpollReactor.{
  Epoll, EpollReactor, WaiterItem, FdState, epollin, find, names, state_of, waiters_of, add_waiter,
  register_waiter, remove_fd, update_fd_interest_unlocked,
}
use co_wq.EpollReactor.Entries.{find-put, update-waiters}
use co_wq.StreamSocket.{Errno, errno, is_again}
use co_wq.Listener.{
  Accepted, accepted, not_accepted, Acceptor, Outcome, new_fd, nothing_yet, accept_fatal,
  outcome_of, StreamListener, close_listener_of, close_listener, try_accept, accept_await_resume,
  accept_await_suspend,
}

-- What a call of `accept` takes off the connections that come, now or later, in their order: the first, or none. It
-- fails with `EBADF` for an invalid descriptor.
abbrev pub TookFrom : Accepted → List ℕ → List ℕ → Type 0
TookFrom (accepted fd) before after = before ≡ fd ∷ after
TookFrom (not_accepted e) before after = before ≡ after

abbrev pub ebadf : Errno
ebadf = errno 9

pub record AcceptsQueue {A : Type 0} (net : Acceptor A) : Type 0 where
  pub coming : A → List ℕ
  pub in_order :
      (fd : Option ℕ) (k : A) → TookFrom (net.accept fd k).0 (coming k) (coming (net.accept fd k).1)
  pub closed : (k : A) → (net.accept none k).0 ≡ not_accepted ebadf

abbrev pub Took : Outcome → List ℕ → List ℕ → Type 0
Took (new_fd fd) before after = before ≡ fd ∷ after
Took nothing_yet before after = before ≡ after
Took accept_fatal before after = before ≡ after

took :
    (r : Accepted) (before after : List ℕ)
    → TookFrom r before after
    → Took (outcome_of r) before after
took (accepted fd) before after t = t
took (not_accepted e) before after t = elim (Bool-cases (is_again e)) [
  | inl y ↦ rw y t
  | inr n ↦ rw n t
]

module _ {A K : Type 0} (net : Acceptor A) (queue : AcceptsQueue net) where
  tried :
      (l : StreamListener A K)
      → Took
          (try_accept net l).0
          (queue.coming l.backlog)
          (queue.coming (try_accept net l).1.backlog)
  unfolding try_accept
  tried l = took (net.accept l.fd l.backlog).0 _ _ (queue.in_order l.fd l.backlog)

  resumed :
      (newfd : Outcome) (before : List ℕ) (l : StreamListener A K)
      → Took newfd before (queue.coming l.backlog)
      → Took
          (accept_await_resume net newfd l).0
          before
          (queue.coming (accept_await_resume net newfd l).1.backlog)
  unfolding accept_await_resume
  resumed (new_fd fd) before l t = t
  resumed nothing_yet before l t =
      subst (λ b. Took (try_accept net l).0 b (queue.coming (try_accept net l).1.backlog)) (sym t)
        (tried l)
  resumed accept_fatal before l t = t

  -- An `accept` as a whole: a first try, and where that found nothing, another one when the coroutine is resumed,
  -- while nobody else accepts in between; the listener may be closed meanwhile. If it returns a descriptor, that is
  -- the first connection to come, which is taken; if it returns -1 or the fatal value, none is taken.
  pub accept_await_resume-Took :
      (l m : StreamListener A K)
      → m.backlog ≡ (try_accept net l).1.backlog
      → Took
          (accept_await_resume net (try_accept net l).0 m).0
          (queue.coming l.backlog)
          (queue.coming (accept_await_resume net (try_accept net l).0 m).1.backlog)
  accept_await_resume-Took l m e = resumed (try_accept net l).0 (queue.coming l.backlog) m (
      subst (λ k. Took (try_accept net l).0 (queue.coming l.backlog) (queue.coming k)) (sym e)
        (tried l))

names-append :
    (ws : List WaiterItem) (wi : WaiterItem) → names (ws ++ wi ∷ []) ≡ names ws ++ wi.waiter ∷ []
names-append [] wi = refl
names-append (x ∷ ws) wi = ap (◌∷◌ x.waiter) (names-append ws wi)

state-waiters : (o : Option FdState) → (state_of o).waiters ≡ waiters_of o
state-waiters none = refl
state-waiters (some st) = refl

module _ {A K : Type 0} (os : Epoll K) (net : Acceptor A) (queue : AcceptsQueue net) where
  waiters_after :
      (fd w : ℕ) (r : EpollReactor K)
      → names (waiters_of (find fd (add_waiter os fd epollin w r).fds))
        ≡ names (waiters_of (find fd r.fds)) ++ w ∷ []
  unfolding add_waiter register_waiter
  waiters_after fd w r =
      let st = state_of (find fd r.fds) in
      let wi : WaiterItem = record {
        mask = epollin;
        waiter = w;
        has_timeout = false;
        deadline = 0;
      } in
      let st' = record st { waiters = st.waiters ++ wi ∷ [] } in
      let u = update_fd_interest_unlocked os fd st' r.kernel in
      ap (λ o. names (waiters_of o)) (find-put fd u.0 r.fds)
      ∙ ap names (update-waiters os fd st' r.kernel)
      ∙ names-append st.waiters wi
      ∙ ap (λ ws. names ws ++ w ∷ []) (state-waiters (find fd r.fds))

  -- What closing did to a listener on which `w` was the last to wait.
  pub record Released (fd w : ℕ) (l l' : StreamListener A K) : Type 0 where
    pub gone : l'.fd ≡ none
    pub posted :
        l'.reactor.posted
        ≡ l.reactor.posted ++ (names (waiters_of (find fd l.reactor.fds)) ++ w ∷ [])
    pub given_back : l'.closed_fds ≡ l.closed_fds ++ fd ∷ []
    pub once : close_listener os l' ≡ l'
    pub fails : (accept_await_resume net nothing_yet l').0 ≡ accept_fatal

  -- Closing a listener on which a coroutine waits hands it to the executor, behind those that waited before; its
  -- `accept` then returns the fatal value. The descriptor is given back, once.
  pub close_listener-Released :
      (fd w : ℕ) (l : StreamListener A K)
      → l.fd ≡ some fd
      → Released fd w l (close_listener os (accept_await_suspend os fd w l))
  unfolding close_listener accept_await_suspend accept_await_resume try_accept remove_fd add_waiter
      register_waiter
  close_listener-Released fd w l e =
      let m = accept_await_suspend os fd w l in
      subst (λ o. Released fd w l (close_listener_of os o m)) (sym e)
        (record {
          gone = refl;
          posted = ap (λ ws. l.reactor.posted ++ ws) (waiters_after fd w l.reactor);
          given_back = refl;
          once = refl;
          fails = ap outcome_of (queue.closed l.backlog);
        })
