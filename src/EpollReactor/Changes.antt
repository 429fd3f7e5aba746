-- ===== src/EpollReactor/Changes.antt =====
-- io/epoll_reactor.hpp: one entry changed, taken out, or deleted at the kernel, and the others left.
use co_wq.Prelude.{
  ℕ, ◌≡◌, refl, sym, ap, subst, ◌∙◌, Bool, true, false, ◌||◌, Option, none, some, List, [], ◌==◌,
  inl, inr, Bool-cases,
}
use co_wq.EpollReactor.{
  ctl_del, Epoll, WaiterItem, FdState, find, put, erase, state_of, waiters_of, union_from,
  update_fd_interest_unlocked,
}
use co_wq.EpollReactor.Entries.{
  same_key, same_key_refl, update-waiters, find-put, find-put_other, Distinct-put, find-erase,
  find-erase_other, Distinct-erase, differ,
}
use co_wq.EpollReactor.Interest.{
  Watches, wanted, wanted_of, IsCurrent, Wired, updated, updated-others, updated-interest,
}

module _ {K : Type 0} (os : Epoll K) (kernel : Watches os) where
  unwanted : (o : Option FdState) → waiters_of o ≡ [] → wanted_of o ≡ none
  unwanted none e = refl
  unwanted (some st) e = ap (λ ws. wanted (union_from 0 ws)) e

  or_left : (a b : Bool) → a ≡ true → (a || b) ≡ false → ⊥
  or_left true b e f = cc
  or_left false b e f = cc

  or_right : (a b c : Bool) → a ≡ false → (a || b) ≡ c → b ≡ c
  or_right true b c e f = cc
  or_right false b c e f = f

  or_true : (a b : Bool) → a ≡ true → (a || b) ≡ true
  or_true true b e = refl
  or_true false b e = cc

  or_false : (a b : Bool) → a ≡ false → b ≡ false → (a || b) ≡ false
  or_false true b e f = cc
  or_false false b e f = f

  or_last : (a b : Bool) → b ≡ true → (a || b) ≡ true
  or_last true b e = refl
  or_last false b e = e

  known :
      (o : Option FdState) (x : Option ℕ)
      → IsCurrent o
      → x ≡ wanted_of o
      → x ≡ wanted (state_of o).interest
  known none x c e = e
  known (some st) x c e = e ∙ ap wanted (sym c)

  -- One entry changed by an update, and the others left.
  pub put-Wired :
      (late : ℕ → Bool) (fd : ℕ) (ws : List WaiterItem) (fds : List (ℕ × FdState)) (k : K)
      → (late fd ≡ true → ws ≡ [])
      → Wired os kernel late fds k
      → (let u =
            update_fd_interest_unlocked os fd
              (record (state_of (find fd fds)) { waiters = ws })
              k in
          Wired os kernel late (put fd u.0 fds) u.1)
  put-Wired late fd ws fds k nobody w =
      let st = record (state_of (find fd fds)) { waiters = ws } in
      let u = update_fd_interest_unlocked os fd st k in
      let now = λ (on_time : late fd ≡ false).
        updated os kernel fd st k (known (find fd fds) _ (w.current fd) (w.watched fd on_time)) in
      let same = update-waiters os fd st k in
      let found = find-put fd u.0 fds in
      let left = λ (f : ℕ) (e : (fd == f) ≡ false). find-put_other f fd u.0 fds (differ fd f e) in
      record {
        distinct = Distinct-put fd u.0 fds w.distinct;
        current = λ f. elim (Bool-cases (fd == f)) [
          | inl e ↦
              subst (λ g. IsCurrent (find g (put fd u.0 fds))) (same_key fd f e)
                (subst IsCurrent (sym found) (updated-interest os kernel fd st k))
          | inr e ↦ subst IsCurrent (sym (left f e)) (w.current f)
        ];
        watched = λ f. elim (Bool-cases (fd == f)) [
          | inl e ↦
              subst
                (λ g. late g ≡ false → kernel.watched u.1 g ≡ wanted_of (find g (put fd u.0 fds)))
                (same_key fd f e)
                (λ t.
                  (now t).2
                  ∙ ap (λ v. wanted (union_from 0 v)) (sym same)
                  ∙ ap wanted_of (sym found))
          | inr e ↦ λ t.
              updated-others os kernel f fd st k (differ fd f e)
              ∙ w.watched f t
              ∙ ap wanted_of (sym (left f e))
        ];
        alone = λ f. elim (Bool-cases (fd == f)) [
          | inl e ↦
              subst (λ g. late g ≡ true → waiters_of (find g (put fd u.0 fds)) ≡ [])
                (same_key fd f e) (λ t. ap waiters_of found ∙ same ∙ nobody t)
          | inr e ↦ λ t. ap waiters_of (left f e) ∙ w.alone f t
        ];
      }

  -- The locked part of a removal.
  pub erase-Wired :
      (late : ℕ → Bool) (fd : ℕ) (fds : List (ℕ × FdState)) (k : K)
      → Wired os kernel late fds k
      → Wired os kernel (λ f. (fd == f) || late f) (erase fd fds) k
  erase-Wired late fd fds k w =
      let gone = find-erase fd fds w.distinct in
      let left = λ (f : ℕ) (e : (fd == f) ≡ false). find-erase_other f fd fds (differ fd f e) in
      record {
        distinct = Distinct-erase fd fds w.distinct;
        current = λ f. elim (Bool-cases (fd == f)) [
          | inl e ↦
              subst (λ g. IsCurrent (find g (erase fd fds))) (same_key fd f e)
                (subst IsCurrent (sym gone) tt)
          | inr e ↦ subst IsCurrent (sym (left f e)) (w.current f)
        ];
        watched = λ f t. elim (Bool-cases (fd == f)) [
          | inl e ↦ absurd (or_left _ _ e t)
          | inr e ↦ w.watched f (or_right _ _ _ e t) ∙ ap wanted_of (sym (left f e))
        ];
        alone = λ f t. elim (Bool-cases (fd == f)) [
          | inl e ↦
              subst (λ g. waiters_of (find g (erase fd fds)) ≡ []) (same_key fd f e)
                (ap waiters_of gone)
          | inr e ↦ ap waiters_of (left f e) ∙ w.alone f (or_right _ _ _ e t)
        ];
      }

  -- The end of a removal: `late` is without it, unless there is another one of the descriptor.
  pub delete-Wired :
      (late rest : ℕ → Bool) (fd : ℕ) (fds : List (ℕ × FdState)) (k : K)
      → ((f : ℕ) → late f ≡ ((fd == f) || rest f))
      → Wired os kernel late fds k
      → Wired os kernel rest fds (os.epoll_ctl ctl_del fd 0 k).1
  delete-Wired late rest fd fds k both w = record {
    distinct = w.distinct;
    current = w.current;
    watched = λ f t. elim (Bool-cases (fd == f)) [
      | inl e ↦
          subst (λ g. kernel.watched (os.epoll_ctl ctl_del fd 0 k).1 g ≡ wanted_of (find g fds))
            (same_key fd f e)
            (kernel.del fd 0 k
              ∙ sym
                  (unwanted (find fd fds) (w.alone fd (both fd ∙ or_true _ _ (same_key_refl fd)))))
      | inr e ↦
          kernel.others ctl_del f fd 0 k (differ fd f e) ∙ w.watched f (both f ∙ or_false _ _ e t)
    ];
    alone = λ f t. w.alone f (both f ∙ or_last _ _ t);
  }
