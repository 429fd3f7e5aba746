-- ===== src/EpollReactor/Handover.antt =====
-- No registration of a waiter is lost or handed over twice: it waits, or a removal has it, or it was handed over.
use co_wq.Prelude.{
  ℕ, zero, suc, ◌+◌, ◌≡◌, refl, ap, ◌∙◌, Bool, Option, none, some, List, [], ◌∷◌, ◌++◌, ◌==◌,
  if◌then◌else◌, Bool-cases, inl, inr, arith, append-nil,
}
use co_wq.EpollReactor.{
  Epoll, WaiterItem, FdState, EpollReactor, epoll_reactor, find, put, erase, no_waiters, state_of,
  names, remove_if, is_due, is_meant, update_fd_interest_unlocked, add_absent, add_fd,
  register_waiter, waiters_of, after_removal, collect_timeouts, handle_timeouts, check_timeouts,
  wake, handle_event, handle_events, Waited, ready, interrupted, broken, after_wait, run_round,
}
use mathlib.Core.Option.{some-injective}
use co_wq.EpollReactor.Threads.{
  Removal, Shared, unshared, Event, adds, unlists, finishes, checks, registers, wakes, round,
  with_first, pick, finish, apply, run,
}
use co_wq.EpollReactor.Entries.{update-waiters}

-- How often a waiter stands in a list.
abbrev pub times : ℕ → List ℕ → ℕ
times w [] = 0
times w (x ∷ xs) = (if x == w then 1 else 0) + times w xs

times-append : (w : ℕ) (xs ys : List ℕ) → times w (xs ++ ys) ≡ times w xs + times w ys
times-append w [] ys = omega arith
times-append w (x ∷ xs) ys = omega (arith, times-append w xs ys)

-- The waiters that wait, of all descriptors.
abbrev pub waiting : List (ℕ × FdState) → List ℕ
waiting [] = []
waiting ((fd, st) ∷ fds) = names st.waiters ++ waiting fds

names-append : (ws vs : List WaiterItem) → names (ws ++ vs) ≡ names ws ++ names vs
names-append [] vs = refl
names-append (wi ∷ ws) vs = ap (◌∷◌ wi.waiter) (names-append ws vs)

module _ (w : ℕ) where
  times-remove_if :
      (test : WaiterItem → Bool) (ws : List WaiterItem)
      → times w (names (remove_if test ws).0) + times w (names (remove_if test ws).1)
        ≡ times w (names ws)
  times-remove_if test [] = refl
  times-remove_if test (wi ∷ ws) = let rest = times-remove_if test ws in ground (arith, rest)

  times-put :
      (fd : ℕ) (st : FdState) (fds : List (ℕ × FdState))
      → times w (waiting (put fd st fds)) + times w (names (state_of (find fd fds)).waiters)
        ≡ times w (waiting fds) + times w (names st.waiters)
  times-put fd st [] = omega (arith, ap (times w) (append-nil (names st.waiters)))
  times-put fd st ((key, old) ∷ fds) =
      let rest = times-put fd st fds in
      let old_first = times-append w (names old.waiters) (waiting fds) in
      let new_first = times-append w (names st.waiters) (waiting fds) in
      let old_kept = times-append w (names old.waiters) (waiting (put fd st fds)) in
      elim (Bool-cases (key == fd)) [
        | inl here ↦ rw here (omega (arith, old_first, new_first))
        | inr later ↦ rw later (omega (arith, old_first, old_kept, rest))
      ]

  times-erase :
      (fd : ℕ) (fds : List (ℕ × FdState))
      → times w (waiting (erase fd fds)) + times w (names (waiters_of (find fd fds)))
        ≡ times w (waiting fds)
  times-erase fd [] = refl
  times-erase fd ((key, st) ∷ fds) =
      let rest = times-erase fd fds in
      let first = times-append w (names st.waiters) (waiting fds) in
      let kept = times-append w (names st.waiters) (waiting (erase fd fds)) in
      elim (Bool-cases (key == fd)) [
        | inl here ↦ rw here (omega (arith, first))
        | inr later ↦ rw later (omega (arith, first, kept, rest))
      ]

  -- How often removals that have not come to their end have the waiter in hand.
  abbrev pub in_hand : List Removal → ℕ
  in_hand [] = 0
  in_hand (x ∷ xs) = times w (names x.to_resume) + in_hand xs

  in_hand-with_first :
      (x y : Removal) (o : Option (Removal × List Removal)) (xs ys : List Removal)
      → with_first x o ≡ some (y, ys)
      → ((zs : List Removal)
          → o ≡ some (y, zs)
          → in_hand xs ≡ times w (names y.to_resume) + in_hand zs)
      → times w (names x.to_resume) + in_hand xs ≡ times w (names y.to_resume) + in_hand ys
  in_hand-with_first x y none xs ys e f = cc
  in_hand-with_first x y (some (z, zs)) xs ys e f =
      let same = some-injective _ _ e in
      omega
        (arith, f zs (ap (λ r. some (r, zs)) (ap (λ p. p.0) same)), ap in_hand (ap (λ p. p.1) same))

  in_hand-pick :
      (n : ℕ) (xs : List Removal) (y : Removal) (ys : List Removal)
      → pick n xs ≡ some (y, ys)
      → in_hand xs ≡ times w (names y.to_resume) + in_hand ys
  in_hand-pick n [] y ys e = cc
  in_hand-pick zero (x ∷ xs) y ys e =
      let same = some-injective _ _ e in
      omega (
        arith,
        ap (λ (p : Removal × List Removal). times w (names p.0.to_resume)) same,
        ap (λ (p : Removal × List Removal). in_hand p.1) same,
      )
  in_hand-pick (suc n) (x ∷ xs) y ys e =
      in_hand-with_first x y (pick n xs) xs ys e (λ zs f. in_hand-pick n xs y zs f)

  -- How often an event registers the waiter.
  abbrev pub registered_by : Event → ℕ
  registered_by (adds fd) = 0
  registered_by (unlists fd) = 0
  registered_by (finishes n) = 0
  registered_by (checks now) = 0
  registered_by (registers fd preserve_func wi) = times w (wi.waiter ∷ [])
  registered_by (wakes fd flags) = 0
  registered_by (round now x later) = 0

  abbrev pub registrations : List Event → ℕ
  registrations [] = 0
  registrations (e ∷ es) = registered_by e + registrations es

  module _ {K : Type 0} (os : Epoll K) where
    removed :
        (fd : ℕ) (st : FdState) (r : List WaiterItem × List WaiterItem) (k : K)
        → times w (names r.0) + times w (names r.1) ≡ times w (names st.waiters)
        → times w (names (after_removal os fd st r k).0.waiters) + times w (names r.1)
          ≡ times w (names st.waiters)
    removed fd st (kept, []) k e = omega arith
    removed fd st (kept, wi ∷ taken) k e =
        let same =
          ap (λ ws. times w (names ws)) (update-waiters os fd (record st { waiters = kept }) k) in
        omega (arith, e, same)

    -- How often a waiter waits or was handed over.
    sum : EpollReactor K → ℕ
    sum r = times w (waiting r.fds) + times w r.posted

    collected :
        (now : ℕ) (fds : List (ℕ × FdState)) (k : K)
        → times w (waiting (collect_timeouts os now fds k).0.0)
            + times w (names (collect_timeouts os now fds k).1)
          ≡ times w (waiting fds)
    unfolding collect_timeouts
    collected now [] k = refl
    collected now ((fd, st) ∷ fds) k =
        let r = remove_if (is_due now) st.waiters in
        let x = after_removal os fd st r k in
        let y = collect_timeouts os now fds x.1 in
        omega (
          arith,
          removed fd st r k (times-remove_if (is_due now) st.waiters),
          collected now fds x.1,
          times-append w (names x.0.waiters) (waiting y.0.0),
          times-append w (names st.waiters) (waiting fds),
          ap (times w) (names-append r.1 y.1),
          times-append w (names r.1) (names y.1),
        )

    handled :
        (ws : List WaiterItem) (r : EpollReactor K)
        → sum (handle_timeouts os ws r) ≡ sum r + times w (names ws)
    unfolding handle_timeouts sum
    handled [] r = omega arith
    handled (wi ∷ ws) r =
        let r' = record r {
          expired = r.expired ++ wi.waiter ∷ [];
          posted = r.posted ++ wi.waiter ∷ [];
        } in
        omega (arith, handled ws r', times-append w r.posted (wi.waiter ∷ []))

    checked : (now : ℕ) (r : EpollReactor K) → sum (check_timeouts os now r) ≡ sum r
    unfolding check_timeouts sum
    checked now r =
        let c = collect_timeouts os now r.fds r.kernel in
        omega (
          arith,
          handled c.1 (record r { fds = c.0.0; kernel = c.0.1 }),
          collected now r.fds r.kernel,
        )

    woken :
        (fd flags : ℕ) (o : Option FdState) (r : EpollReactor K)
        → find fd r.fds ≡ o
        → sum (wake os fd flags o r) ≡ sum r
    unfolding sum
    woken fd flags none r e = refl
    woken fd flags (some st) r e =
        let p = remove_if (is_meant flags) st.waiters in
        let u = update_fd_interest_unlocked os fd (record st { waiters = p.0 }) r.kernel in
        omega (
          arith,
          times-put fd u.0 r.fds,
          ap (λ x. times w (names (state_of x).waiters)) e,
          ap (λ ws. times w (names ws))
              (update-waiters os fd (record st { waiters = p.0 }) r.kernel),
          times-remove_if (is_meant flags) st.waiters,
          times-append w r.posted (names p.1),
        )

    handled_all : (evs : List (ℕ × ℕ)) (r : EpollReactor K) → sum (handle_events os evs r) ≡ sum r
    unfolding handle_events handle_event
    handled_all [] r = refl
    handled_all ((fd, flags) ∷ evs) r =
        handled_all evs (handle_event os fd flags r) ∙ woken fd flags (find fd r.fds) r refl

    rounded :
        (x : Waited) (later : ℕ) (r : EpollReactor K) → sum (after_wait os x later r).1 ≡ sum r
    rounded (ready []) later r = refl
    rounded (ready (ev ∷ evs)) later r =
        checked later (handle_events os (ev ∷ evs) r) ∙ handled_all (ev ∷ evs) r
    rounded interrupted later r = refl
    rounded broken later r = refl

    added :
        (fd : ℕ) (o : Option FdState) (r : EpollReactor K)
        → find fd r.fds ≡ o
        → sum (add_absent os fd o r) ≡ sum r
    unfolding sum
    added fd none r e =
        omega
          (arith, times-put fd no_waiters r.fds, ap (λ x. times w (names (state_of x).waiters)) e)
    added fd (some st) r e = refl

    -- How often it waits, is in hand, or was handed over.
    total : Shared K → ℕ
    total s = sum s.reactor + in_hand s.removals

    finished :
        (s : Shared K) (o : Option (Removal × List Removal))
        → ((x : Removal) (xs : List Removal)
            → o ≡ some (x, xs)
            → in_hand s.removals ≡ times w (names x.to_resume) + in_hand xs)
        → total (finish os o s) ≡ total s
    unfolding total sum
    finished s none e = refl
    finished s (some (x, xs)) e =
        omega (arith, e x xs refl, times-append w s.reactor.posted (names x.to_resume))

    applied : (e : Event) (s : Shared K) → total (apply os e s) ≡ total s + registered_by e
    unfolding add_fd register_waiter run_round handle_event sum total
    applied (adds fd) s = omega (arith, added fd (find fd s.reactor.fds) s.reactor refl)
    applied (unlists fd) s = omega (arith, times-erase fd s.reactor.fds)
    applied (finishes n) s =
        omega (arith, finished s (pick n s.removals) (λ x xs e. in_hand-pick n s.removals x xs e))
    applied (checks now) s = omega (arith, checked now s.reactor)
    applied (wakes fd flags) s =
        omega (arith, woken fd flags (find fd s.reactor.fds) s.reactor refl)
    applied (registers fd preserve_func wi) s =
        let st = state_of (find fd s.reactor.fds) in
        let st' = record st { waiters = st.waiters ++ wi ∷ [] } in
        let u = update_fd_interest_unlocked os fd st' s.reactor.kernel in
        omega (
          arith,
          times-put fd u.0 s.reactor.fds,
          ap (λ ws. times w (names ws)) (update-waiters os fd st' s.reactor.kernel),
          ap (times w) (names-append st.waiters (wi ∷ [])),
          times-append w (names st.waiters) (wi.waiter ∷ []),
        )
    applied (round now x later) s =
        omega (arith, rounded x later (check_timeouts os now s.reactor), checked now s.reactor)

    ran : (es : List Event) (s : Shared K) → total (run os es s) ≡ total s + registrations es
    ran [] s = omega arith
    ran (e ∷ es) s = omega (arith, ran es (apply os e s), applied e s)

    -- Whatever the threads do to a new reactor, a waiter still waits, or is in the hands of a `remove_fd` that
    -- has released the lock, or was handed over to the executor, in all as often as it was registered: no
    -- registration is lost, and none hands the waiter over twice.
    pub run-epoll_reactor :
        (k : K) (es : List Event)
        → (let s = run os es (unshared k) in
            times w (waiting s.reactor.fds) + in_hand s.removals + times w s.reactor.posted
            ≡ registrations es)
    unfolding total sum epoll_reactor
    run-epoll_reactor k es = omega (arith, ran es (unshared k))
