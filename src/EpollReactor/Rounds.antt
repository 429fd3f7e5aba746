-- ===== src/EpollReactor/Rounds.antt =====
-- io/epoll_reactor.hpp: the rounds of the loop leave the kernel watching what the waiters wait for.
use co_wq.Prelude.{
  ℕ, ◌≡◌, refl, sym, ap, subst, ◌∙◌, Bool, true, false, Option, none, some, List, [], ◌∷◌, ◌++◌,
  append_assoc, ◌==◌, inl, inr, Bool-cases,
}
use co_wq.EpollReactor.{
  Epoll, WaiterItem, FdState, EpollReactor, find, put, no_waiters, state_of, remove_if, is_due,
  is_meant, update_fd_interest_unlocked, add_absent, after_removal, collect_timeouts,
  handle_timeouts, check_timeouts, wake, handle_event, handle_events, Waited, ready, interrupted,
  broken, after_wait, waiters_of,
}
use co_wq.EpollReactor.Entries.{
  same_key, same_key_refl, differ, find-put, find-put_other, Distinct, entry, Distinct-put,
}
use co_wq.EpollReactor.Interest.{Watches, IsCurrent, wanted_of, Wired}
use co_wq.EpollReactor.Changes.{put-Wired}

-- An entry in the middle of the traversal is the one found by its key.
middle-find :
    (done : List (ℕ × FdState)) (fd : ℕ) (st : FdState) (rest : List (ℕ × FdState))
    → Distinct (done ++ (fd, st) ∷ rest)
    → find fd (done ++ (fd, st) ∷ rest) ≡ some st
middle-find [] fd st rest d = rw (same_key_refl fd) refl
middle-find ((key, old) ∷ done) fd st rest (entry _ _ _ n d) = elim (Bool-cases (key == fd)) [
  | inl e ↦
      let found = middle-find done fd st rest d in
      let lost = subst (λ k. find k (done ++ (fd, st) ∷ rest) ≡ none) (same_key key fd e) n in cc
  | inr e ↦ rw e (middle-find done fd st rest d)
]

middle-put :
    (done : List (ℕ × FdState)) (fd : ℕ) (st st' : FdState) (rest : List (ℕ × FdState))
    → Distinct (done ++ (fd, st) ∷ rest)
    → put fd st' (done ++ (fd, st) ∷ rest) ≡ done ++ (fd, st') ∷ rest
middle-put [] fd st st' rest d = rw (same_key_refl fd) refl
middle-put ((key, old) ∷ done) fd st st' rest (entry _ _ _ n d) = elim (Bool-cases (key == fd)) [
  | inl e ↦
      let found = middle-find done fd st rest d in
      let lost = subst (λ k. find k (done ++ (fd, st) ∷ rest) ≡ none) (same_key key fd e) n in cc
  | inr e ↦ rw e (ap (◌∷◌ (key, old)) (middle-put done fd st st' rest d))
]

-- Of no waiters none are kept.
kept_none : (test : WaiterItem → Bool) (ws : List WaiterItem) → ws ≡ [] → (remove_if test ws).0 ≡ []
kept_none test [] e = refl
kept_none test (wi ∷ ws) e = cc

module _ {K : Type 0} (os : Epoll K) (kernel : Watches os) (late : ℕ → Bool) where
  removed-Wired :
      (done : List (ℕ × FdState)) (fd : ℕ) (st : FdState) (rest : List (ℕ × FdState)) (k : K)
      (r : List WaiterItem × List WaiterItem)
      → (st.waiters ≡ [] → r.0 ≡ [])
      → Wired os kernel late (done ++ (fd, st) ∷ rest) k
      → Wired os kernel late
          (done ++ (fd, (after_removal os fd st r k).0) ∷ rest)
          (after_removal os fd st r k).1
  removed-Wired done fd st rest k (kept, []) gone w = w
  removed-Wired done fd st rest k (kept, wi ∷ taken) gone w =
      let fds = done ++ (fd, st) ∷ rest in
      let step =
        put-Wired os kernel late fd kept fds k
          (λ t. gone (ap waiters_of (sym (middle-find done fd st rest w.distinct)) ∙ w.alone fd t))
          w in
      let at_st =
        subst
          (λ o.
            let u = update_fd_interest_unlocked os fd (record (state_of o) { waiters = kept }) k in
            Wired os kernel late (put fd u.0 fds) u.1)
          (middle-find done fd st rest w.distinct) step in
      let u = update_fd_interest_unlocked os fd (record st { waiters = kept }) k in
      subst (λ x. Wired os kernel late x u.1) (middle-put done fd st u.0 rest w.distinct) at_st

  collected-Wired :
      (now : ℕ) (done fds : List (ℕ × FdState)) (k : K)
      → Wired os kernel late (done ++ fds) k
      → Wired os kernel late
          (done ++ (collect_timeouts os now fds k).0.0)
          (collect_timeouts os now fds k).0.1
  unfolding collect_timeouts
  collected-Wired now done [] k w = w
  collected-Wired now done ((fd, st) ∷ fds) k w =
      let r = remove_if (is_due now) st.waiters in
      let x = after_removal os fd st r k in
      let c = collect_timeouts os now fds x.1 in
      subst (λ l. Wired os kernel late l c.0.1) (append_assoc done ((fd, x.0) ∷ []) c.0.0)
        (collected-Wired now (done ++ (fd, x.0) ∷ []) fds x.1 (
          subst (λ l. Wired os kernel late l x.1) (sym (append_assoc done ((fd, x.0) ∷ []) fds))
            (removed-Wired done fd st fds k r (kept_none (is_due now) st.waiters) w)))

  handled :
      (ws : List WaiterItem) (r : EpollReactor K)
      → ((handle_timeouts os ws r).fds ≡ r.fds) × ((handle_timeouts os ws r).kernel ≡ r.kernel)
  unfolding handle_timeouts
  handled [] r = (refl, refl)
  handled (wi ∷ ws) r =
      handled ws
        (record r { expired = r.expired ++ wi.waiter ∷ []; posted = r.posted ++ wi.waiter ∷ [] })

  abbrev IsWatched : EpollReactor K → Type 0
  IsWatched r = Wired os kernel late r.fds r.kernel

  pub checked-IsWatched :
      (now : ℕ) (r : EpollReactor K) → IsWatched r → IsWatched (check_timeouts os now r)
  unfolding check_timeouts
  checked-IsWatched now r w =
      let c = collect_timeouts os now r.fds r.kernel in
      let h = handled c.1 (record r { fds = c.0.0; kernel = c.0.1 }) in
      subst (λ l. Wired os kernel late l (check_timeouts os now r).kernel) (sym h.0)
        (subst (Wired os kernel late c.0.0) (sym h.1) (collected-Wired now [] r.fds r.kernel w))

  pub woken-IsWatched :
      (fd flags : ℕ) (o : Option FdState) (r : EpollReactor K)
      → find fd r.fds ≡ o
      → IsWatched r
      → IsWatched (wake os fd flags o r)
  woken-IsWatched fd flags none r e w = w
  woken-IsWatched fd flags (some st) r e w =
      let kept = (remove_if (is_meant flags) st.waiters).0 in
      subst
        (λ o.
          let u =
            update_fd_interest_unlocked os fd (record (state_of o) { waiters = kept }) r.kernel in
          Wired os kernel late (put fd u.0 r.fds) u.1)
        e
        (put-Wired os kernel late fd kept r.fds r.kernel
          (λ t. kept_none (is_meant flags) st.waiters (ap waiters_of (sym e) ∙ w.alone fd t)) w)

  handled_all-IsWatched :
      (evs : List (ℕ × ℕ)) (r : EpollReactor K) → IsWatched r → IsWatched (handle_events os evs r)
  unfolding handle_events handle_event
  handled_all-IsWatched [] r w = w
  handled_all-IsWatched ((fd, flags) ∷ evs) r w =
      handled_all-IsWatched evs (handle_event os fd flags r)
        (woken-IsWatched fd flags (find fd r.fds) r refl w)

  pub rounded-IsWatched :
      (x : Waited) (later : ℕ) (r : EpollReactor K)
      → IsWatched r
      → IsWatched (after_wait os x later r).1
  rounded-IsWatched (ready []) later r w = w
  rounded-IsWatched (ready (ev ∷ evs)) later r w =
      checked-IsWatched later (handle_events os (ev ∷ evs) r) (handled_all-IsWatched (ev ∷ evs) r w)
  rounded-IsWatched interrupted later r w = w
  rounded-IsWatched broken later r w = w

  pub added-IsWatched :
      (fd : ℕ) (o : Option FdState) (r : EpollReactor K)
      → find fd r.fds ≡ o
      → IsWatched r
      → IsWatched (add_absent os fd o r)
  added-IsWatched fd (some st) r e w = w
  added-IsWatched fd none r e w =
      let there = find-put fd no_waiters r.fds in
      let fds = put fd no_waiters r.fds in
      let left =
        λ (f : ℕ) (n : (fd == f) ≡ false). find-put_other f fd no_waiters r.fds (differ fd f n) in
      record {
        distinct = Distinct-put fd no_waiters r.fds w.distinct;
        current = λ f. elim (Bool-cases (fd == f)) [
          | inl i ↦
              subst (λ g. IsCurrent (find g fds)) (same_key fd f i)
                (subst IsCurrent (sym there) refl)
          | inr n ↦ subst IsCurrent (sym (left f n)) (w.current f)
        ];
        watched = λ f. elim (Bool-cases (fd == f)) [
          | inl i ↦
              subst (λ g. late g ≡ false → kernel.watched r.kernel g ≡ wanted_of (find g fds))
                (same_key fd f i) (λ t. w.watched fd t ∙ ap wanted_of e ∙ ap wanted_of (sym there))
          | inr n ↦ λ t. w.watched f t ∙ ap wanted_of (sym (left f n))
        ];
        alone = λ f. elim (Bool-cases (fd == f)) [
          | inl i ↦
              subst (λ g. late g ≡ true → waiters_of (find g fds) ≡ []) (same_key fd f i)
                (λ t. ap waiters_of there)
          | inr n ↦ λ t. ap waiters_of (left f n) ∙ w.alone f t
        ];
      }
