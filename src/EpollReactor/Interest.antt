-- ===== src/EpollReactor/Interest.antt =====
-- The kernel watches what the waiters wait for.
use co_wq.Prelude.{
  ℕ, ◌≡◌, ◌≢◌, refl, sym, ap, ◌∙◌, Bool, true, false, Option, none, some, List, [], ◌==◌,
  if◌then◌else◌,
}
use co_wq.EpollReactor.{
  CtlOp, ctl_add, ctl_mod, ctl_del, CtlResult, succeeded, no_entry, failed, Epoll, FdState, find,
  waiters_of, union_from, events_of, add_if_absent, update_fd_interest_unlocked,
}
use co_wq.EpollReactor.Entries.{same_key, Distinct}

-- What epoll documents of descriptors that it supports, while it has memory: `watched` are the events that
-- a descriptor is registered with.
pub record Watches {K : Type 0} (os : Epoll K) : Type 0 where
  pub watched : K → ℕ → Option ℕ
  pub mod_there :
      (fd ev old : ℕ) (k : K)
      → watched k fd ≡ some old
      → (os.epoll_ctl ctl_mod fd ev k).0 ≡ succeeded
        × watched (os.epoll_ctl ctl_mod fd ev k).1 fd ≡ some ev
  pub mod_absent :
      (fd ev : ℕ) (k : K)
      → watched k fd ≡ none
      → (os.epoll_ctl ctl_mod fd ev k).0 ≡ no_entry
        × watched (os.epoll_ctl ctl_mod fd ev k).1 fd ≡ none
  pub add_absent :
      (fd ev : ℕ) (k : K)
      → watched k fd ≡ none
      → watched (os.epoll_ctl ctl_add fd ev k).1 fd ≡ some ev
  pub del : (fd ev : ℕ) (k : K) → watched (os.epoll_ctl ctl_del fd ev k).1 fd ≡ none
  pub others :
      (op : CtlOp) (f fd ev : ℕ) (k : K)
      → fd ≢ f
      → watched (os.epoll_ctl op fd ev k).1 f ≡ watched k f

-- What the kernel is to watch a descriptor for: nothing, or the masks of all waiters, and errors always.
abbrev pub wanted : ℕ → Option ℕ
wanted interest = if interest == 0 then none else some (events_of interest)

abbrev pub wanted_of : Option FdState → Option ℕ
wanted_of none = none
wanted_of (some st) = wanted (union_from 0 st.waiters)

-- The entry's `interest` is up to date.
abbrev pub IsCurrent : Option FdState → Type 0
IsCurrent none = Unit
IsCurrent (some st) = st.interest ≡ union_from 0 st.waiters

module _ {K : Type 0} (os : Epoll K) (kernel : Watches os) where
  -- For each descriptor. `late` tells which are being removed: the kernel may watch them still, and nobody waits
  -- for them.
  pub record Wired (late : ℕ → Bool) (fds : List (ℕ × FdState)) (k : K) : Type 0 where
    pub distinct : Distinct fds
    pub current : (f : ℕ) → IsCurrent (find f fds)
    pub watched : (f : ℕ) → late f ≡ false → kernel.watched k f ≡ wanted_of (find f fds)
    pub alone : (f : ℕ) → late f ≡ true → waiters_of (find f fds) ≡ []

  if-state :
      {A : Type 0} (P : A → Type 0) (a b : Bool) (x y z : A)
      → (a ≡ true → P x)
      → (a ≡ false → b ≡ true → P y)
      → (a ≡ false → b ≡ false → P z)
      → P (if a then x else if b then y else z)
  if-state P true b x y z f g h = f refl
  if-state P false true x y z f g h = g refl refl
  if-state P false false x y z f g h = h refl refl

  -- `MOD`, then `ADD` if it was not there, watches the descriptor for these events.
  set-there :
      (fd ev : ℕ) (x : CtlResult × K)
      → x.0 ≡ succeeded
      → kernel.watched x.1 fd ≡ some ev
      → kernel.watched (add_if_absent os fd ev x) fd ≡ some ev
  set-there fd ev (succeeded, k) e w = w
  set-there fd ev (no_entry, k) e w = cc
  set-there fd ev (failed, k) e w = cc

  set-absent :
      (fd ev : ℕ) (x : CtlResult × K)
      → x.0 ≡ no_entry
      → kernel.watched x.1 fd ≡ none
      → kernel.watched (add_if_absent os fd ev x) fd ≡ some ev
  set-absent fd ev (succeeded, k) e w = cc
  set-absent fd ev (no_entry, k) e w = kernel.add_absent fd ev k w
  set-absent fd ev (failed, k) e w = cc

  set-watched :
      (fd ev : ℕ) (k : K) (o : Option ℕ)
      → kernel.watched k fd ≡ o
      → kernel.watched (add_if_absent os fd ev (os.epoll_ctl ctl_mod fd ev k)) fd ≡ some ev
  set-watched fd ev k none e =
      let m = kernel.mod_absent fd ev k e in set-absent fd ev (os.epoll_ctl ctl_mod fd ev k) m.0 m.1
  set-watched fd ev k (some old) e =
      let m = kernel.mod_there fd ev old k e in
      set-there fd ev (os.epoll_ctl ctl_mod fd ev k) m.0 m.1

  set-others :
      (f fd ev : ℕ) (x : CtlResult × K)
      → fd ≢ f
      → kernel.watched (add_if_absent os fd ev x) f ≡ kernel.watched x.1 f
  set-others f fd ev (succeeded, k) n = refl
  set-others f fd ev (no_entry, k) n = kernel.others ctl_add f fd ev k n
  set-others f fd ev (failed, k) n = refl

  -- The interest of one descriptor is brought up to date, at the entry and at the kernel.
  pub updated :
      (fd : ℕ) (st : FdState) (k : K)
      → kernel.watched k fd ≡ wanted st.interest
      → (let (st', k') = update_fd_interest_unlocked os fd st k in
          (st'.interest ≡ union_from 0 st.waiters)
          × (st'.waiters ≡ st.waiters)
          × (kernel.watched k' fd ≡ wanted (union_from 0 st.waiters)))
  unfolding update_fd_interest_unlocked
  updated fd st k e =
      let new = union_from 0 st.waiters in
      if-state {A = FdState × K}
        (λ x.
          (x.0.interest ≡ new) × (x.0.waiters ≡ st.waiters) × (kernel.watched x.1 fd ≡ wanted new))
        (new == st.interest) (new == 0) _ _ _
        (λ same.
          let here = same_key new st.interest same in (sym here, refl, e ∙ ap wanted (sym here)))
        (λ changed gone. (refl, refl, kernel.del fd 0 k ∙ rw gone refl))
        (λ changed more.
          (refl, refl, set-watched fd (events_of new) k (wanted st.interest) e ∙ rw more refl))

  pub updated-others :
      (f fd : ℕ) (st : FdState) (k : K)
      → fd ≢ f
      → kernel.watched (update_fd_interest_unlocked os fd st k).1 f ≡ kernel.watched k f
  unfolding update_fd_interest_unlocked
  updated-others f fd st k n =
      let new = union_from 0 st.waiters in
      if-state {A = FdState × K} (λ x. kernel.watched x.1 f ≡ kernel.watched k f)
        (new == st.interest) (new == 0) _ _ _ (λ same. refl)
        (λ changed gone. kernel.others ctl_del f fd 0 k n)
        (λ changed some.
          set-others f fd (events_of new) (os.epoll_ctl ctl_mod fd (events_of new) k) n
          ∙ kernel.others ctl_mod f fd (events_of new) k n)

  pub updated-interest :
      (fd : ℕ) (st : FdState) (k : K)
      → (let (st', k') = update_fd_interest_unlocked os fd st k in
          st'.interest ≡ union_from 0 st'.waiters)
  unfolding update_fd_interest_unlocked
  updated-interest fd st k =
      let new = union_from 0 st.waiters in
      if-state {A = FdState × K} (λ x. x.0.interest ≡ union_from 0 x.0.waiters) (new == st.interest)
        (new == 0) _ _ _ (λ same. sym (same_key new st.interest same)) (λ changed gone. refl)
        (λ changed more. refl)
