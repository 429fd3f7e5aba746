-- ===== src/EpollReactor/Threads.antt =====
-- io/epoll_reactor.hpp: the calls of several threads on one reactor. A step is what one thread does under one hold of
-- the lock; `remove_fd` has a second step after it, and other threads may come between the two.
use co_wq.Prelude.{ℕ, zero, suc, ◌≡◌, Bool, false, ◌||◌, Option, none, some, List, [], ◌∷◌, ◌==◌}
use co_wq.EpollReactor.{
  Epoll, WaiterItem, EpollReactor, epoll_reactor, add_fd, register_waiter, unlist_fd,
  finish_removal, check_timeouts, handle_event, Waited, run_round,
}

-- A call of `remove_fd` that has released the lock: its descriptor and its `to_resume`.
pub record Removal : Type 0 where
  pub fd : ℕ
  pub to_resume : List WaiterItem

pub record Shared (K : Type 0) : Type 0 where
  pub reactor : EpollReactor K
  pub removals : List Removal

abbrev pub unshared : {K : Type 0} → K → Shared K
unshared k = record { reactor = epoll_reactor k; removals = [] }

-- `finishes n` is the end of the removal at place `n`. Besides whole rounds of the loop there are its
-- checks of the timeouts and its events alone, since other calls may come between them.
pub data Event : Type 0 where
  adds unlists finishes checks : ℕ → Event
  registers : ℕ → Bool → WaiterItem → Event
  wakes : ℕ → ℕ → Event
  round : ℕ → Waited → ℕ → Event

abbrev pub with_first : Removal → Option (Removal × List Removal) → Option (Removal × List Removal)
with_first x none = none
with_first x (some (y, ys)) = some (y, x ∷ ys)

abbrev pub pick : ℕ → List Removal → Option (Removal × List Removal)
pick n [] = none
pick zero (x ∷ xs) = some (x, xs)
pick (suc n) (x ∷ xs) = with_first x (pick n xs)

-- Whether a descriptor is being removed.
abbrev pub is_removed : ℕ → List Removal → Bool
is_removed f [] = false
is_removed f (x ∷ xs) = (x.fd == f) || is_removed f xs

module _ {K : Type 0} (os : Epoll K) where
  abbrev pub finish : Option (Removal × List Removal) → Shared K → Shared K
  finish none s = s
  finish (some (x, xs)) s = record {
    reactor = finish_removal os x.fd x.to_resume s.reactor;
    removals = xs;
  }

  abbrev pub apply : Event → Shared K → Shared K
  apply (adds fd) s = record s { reactor = add_fd os fd s.reactor }
  apply (unlists fd) s =
      let (to_resume, r) = unlist_fd os fd s.reactor in
      record { reactor = r; removals = record { fd = fd; to_resume = to_resume } ∷ s.removals }
  apply (finishes n) s = finish (pick n s.removals) s
  apply (checks now) s = record s { reactor = check_timeouts os now s.reactor }
  apply (registers fd preserve_func wi) s = record s {
    reactor = register_waiter os fd preserve_func wi s.reactor;
  }
  apply (wakes fd flags) s = record s { reactor = handle_event os fd flags s.reactor }
  apply (round now w later) s = record s { reactor = (run_round os now w later s.reactor).1 }

  abbrev pub run : List Event → Shared K → Shared K
  run [] s = s
  run (e ∷ es) s = run es (apply e s)

  -- Nobody registers for a descriptor while it is being removed.
  abbrev pub IsApart : Event → Shared K → Type 0
  IsApart (adds fd) s = Unit
  IsApart (unlists fd) s = Unit
  IsApart (finishes n) s = Unit
  IsApart (checks now) s = Unit
  IsApart (registers fd preserve_func wi) s = is_removed fd s.removals ≡ false
  IsApart (wakes fd flags) s = Unit
  IsApart (round now w later) s = Unit

  abbrev pub AreApart : List Event → Shared K → Type 0
  AreApart [] s = Unit
  AreApart (e ∷ es) s = IsApart e s × AreApart es (apply e s)
