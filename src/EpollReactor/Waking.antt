-- ===== src/EpollReactor/Waking.antt =====
-- Which waiters a timeout check and an event hand over.
use co_wq.Prelude.{
  ℕ, ◌≡◌, refl, sym, ap, ap₂, subst, ◌∙◌, Bool, false, not, some, List, [], ◌∷◌, ◌++◌, append_assoc,
  append-nil, inl, inr, Bool-cases, leb, if◌then◌else◌,
}
use co_wq.EpollReactor.{
  Epoll, WaiterItem, FdState, EpollReactor, find, names, waiters_of, remove_if, is_due, is_meant,
  update_fd_interest_unlocked, after_removal, collect_timeouts, handle_timeouts, check_timeouts,
  wake, handle_event,
}
use co_wq.EpollReactor.Entries.{find-put, update-waiters}

-- A waiter whose time has come.
abbrev pub has_come : ℕ → WaiterItem → Bool
has_come now wi = if wi.has_timeout then leb wi.deadline now else false

abbrev pub those : (WaiterItem → Bool) → List WaiterItem → List WaiterItem
those test [] = []
those test (wi ∷ ws) = if test wi then wi ∷ those test ws else those test ws

-- Those of all entries, in the order of the entries.
abbrev pub all_that : (WaiterItem → Bool) → List (ℕ × FdState) → List WaiterItem
all_that test [] = []
all_that test ((fd, st) ∷ fds) = those test st.waiters ++ all_that test fds

-- The descriptors with their waiters, and what is left of them without those that the test takes.
abbrev pub waiting_of : List (ℕ × FdState) → List (ℕ × List WaiterItem)
waiting_of [] = []
waiting_of ((fd, st) ∷ fds) = (fd, st.waiters) ∷ waiting_of fds

abbrev pub left_by : (WaiterItem → Bool) → List (ℕ × List WaiterItem) → List (ℕ × List WaiterItem)
left_by test [] = []
left_by test ((fd, ws) ∷ rest) = (fd, those (λ wi. not (test wi)) ws) ∷ left_by test rest

due_has_come : (now : ℕ) (wi : WaiterItem) → is_due now wi ≡ has_come now wi
due_has_come now wi = elim (Bool-cases wi.has_timeout) [ inl e ↦ rw e refl | inr e ↦ rw e refl ]

-- The two lists of `remove_if` are the waiters that fail the test and those that pass it.
remove_if-those :
    (test wanted : WaiterItem → Bool) (ws : List WaiterItem)
    → ((wi : WaiterItem) → test wi ≡ wanted wi)
    → ((remove_if test ws).0 ≡ those (λ wi. not (wanted wi)) ws)
      × ((remove_if test ws).1 ≡ those wanted ws)
remove_if-those test wanted [] same = (refl, refl)
remove_if-those test wanted (wi ∷ ws) same =
    let rest = remove_if-those test wanted ws same in
    elim (Bool-cases (wanted wi)) [
      | inl e ↦ rw (same wi, e) (rest.0, ap (◌∷◌ wi) rest.1)
      | inr e ↦ rw (same wi, e) (ap (◌∷◌ wi) rest.0, rest.1)
    ]

-- Nothing was taken, so all was kept.
untouched :
    (test : WaiterItem → Bool) (ws : List WaiterItem)
    → (remove_if test ws).1 ≡ []
    → ws ≡ (remove_if test ws).0
untouched test [] e = refl
untouched test (wi ∷ ws) e = elim (Bool-cases (test wi)) [
  | inl t ↦ let taken : (remove_if test (wi ∷ ws)).1 ≡ wi ∷ (remove_if test ws).1 = rw t refl in cc
  | inr n ↦
      let rest : (remove_if test (wi ∷ ws)).1 ≡ (remove_if test ws).1 = rw n refl in
      rw n (ap (◌∷◌ wi) (untouched test ws (sym rest ∙ e)))
]

names-append : (ws vs : List WaiterItem) → names (ws ++ vs) ≡ names ws ++ names vs
names-append [] vs = refl
names-append (wi ∷ ws) vs = ap (◌∷◌ wi.waiter) (names-append ws vs)

module _ {K : Type 0} (os : Epoll K) where
  -- What a check of the timeouts does: the waiters whose time has come are given to their `timeout_func` and
  -- to the executor, entry by entry, and the others wait on.
  pub record Punctual (now : ℕ) (r r' : EpollReactor K) : Type 0 where
    pub expired : r'.expired ≡ r.expired ++ names (all_that (has_come now) r.fds)
    pub posted : r'.posted ≡ r.posted ++ names (all_that (has_come now) r.fds)
    pub waiting : waiting_of r'.fds ≡ left_by (has_come now) (waiting_of r.fds)

  after-waiters :
      (fd : ℕ) (st : FdState) (k : K) (p : List WaiterItem × List WaiterItem)
      → (p.1 ≡ [] → st.waiters ≡ p.0)
      → (after_removal os fd st p k).0.waiters ≡ p.0
  after-waiters fd st k (kept, []) u = u refl
  after-waiters fd st k (kept, wi ∷ taken) u = update-waiters os fd (record st { waiters = kept }) k

  collected :
      (now : ℕ) (fds : List (ℕ × FdState)) (k : K)
      → ((collect_timeouts os now fds k).1 ≡ all_that (has_come now) fds)
        × (waiting_of (collect_timeouts os now fds k).0.0 ≡ left_by (has_come now) (waiting_of fds))
  unfolding collect_timeouts
  collected now [] k = (refl, refl)
  collected now ((fd, st) ∷ fds) k =
      let p = remove_if (is_due now) st.waiters in
      let x = after_removal os fd st p k in
      let both =
        remove_if-those (is_due now) (has_come now) st.waiters (λ wi. due_has_come now wi) in
      let rest = collected now fds x.1 in
      (
        ap₂ (◌++◌) both.1 rest.0,
        ap₂ (◌∷◌)
            (ap (λ ws. (fd, ws))
              (after-waiters fd st k p (untouched (is_due now) st.waiters) ∙ both.0))
            rest.1,
      )

  handled :
      (ws : List WaiterItem) (r : EpollReactor K)
      → (let r' = handle_timeouts os ws r in
          (r'.expired ≡ r.expired ++ names ws)
          × (r'.posted ≡ r.posted ++ names ws)
          × (r'.fds ≡ r.fds))
  unfolding handle_timeouts
  handled [] r = (sym (append-nil r.expired), sym (append-nil r.posted), refl)
  handled (wi ∷ ws) r =
      let h =
        handled ws (record r {
          expired = r.expired ++ wi.waiter ∷ [];
          posted = r.posted ++ wi.waiter ∷ [];
        }) in
      (
        h.0 ∙ append_assoc r.expired (wi.waiter ∷ []) (names ws),
        h.1 ∙ append_assoc r.posted (wi.waiter ∷ []) (names ws),
        h.2,
      )

  -- A check of the timeouts at `now` calls the `timeout_func` of the waiters whose deadline has come, and of no
  -- other, entry by entry in the order of registration, and hands over exactly these, in the same
  -- order. Every other waiter stays with its descriptor, in its order.
  pub check_timeouts-Punctual :
      (now : ℕ) (r : EpollReactor K) → Punctual now r (check_timeouts os now r)
  unfolding check_timeouts
  check_timeouts-Punctual now r =
      let c = collect_timeouts os now r.fds r.kernel in
      let d = collected now r.fds r.kernel in
      let h = handled c.1 (record r { fds = c.0.0; kernel = c.0.1 }) in
      record {
        expired = h.0 ∙ ap (λ ws. r.expired ++ names ws) d.0;
        posted = h.1 ∙ ap (λ ws. r.posted ++ names ws) d.0;
        waiting = ap waiting_of h.2 ∙ d.1;
      }

  -- What an event does to the waiters `ws` of its descriptor.
  pub record Woken (fd flags : ℕ) (ws : List WaiterItem) (r r' : EpollReactor K) : Type 0 where
    pub posted : r'.posted ≡ r.posted ++ names (those (is_meant flags) ws)
    pub left : waiters_of (find fd r'.fds) ≡ those (λ wi. not (is_meant flags wi)) ws

  -- An event hands over the waiters whose mask it meets, in the order of registration, and no other; the others
  -- go on waiting.
  pub handle_event-Woken :
      (fd flags : ℕ) (st : FdState) (r : EpollReactor K)
      → find fd r.fds ≡ some st
      → Woken fd flags st.waiters r (handle_event os fd flags r)
  unfolding handle_event
  handle_event-Woken fd flags st r e =
      let test = is_meant flags in
      let p = remove_if test st.waiters in
      let u = update_fd_interest_unlocked os fd (record st { waiters = p.0 }) r.kernel in
      let both = remove_if-those test test st.waiters (λ wi. refl) in
      subst (λ o. Woken fd flags st.waiters r (wake os fd flags o r)) (sym e)
        (record {
          posted = ap (λ ws. r.posted ++ names ws) both.1;
          left =
              ap waiters_of (find-put fd u.0 r.fds)
              ∙ update-waiters os fd (record st { waiters = p.0 }) r.kernel
              ∙ both.0;
        })
