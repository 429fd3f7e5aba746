-- ===== src/StreamSocket/Core/Calls.antt =====
-- The calls that end the use of a descriptor, over any use of its socket.
use co_wq.Prelude.{
  ℕ, ◌≡◌, refl, sym, subst, ap, Bool, true, false, not, Option, none, some, List, [], ◌∷◌, ◌++◌,
  if◌then◌else◌, inl, inr, ◌⊎◌, ◌∙◌, arith,
}
use mathlib.Core.Option.{some-injective}
use co_wq.Serial.{serial_collect_waiters, Executor}
use co_wq.EpollReactor.{Epoll, EpollReactor}
use co_wq.StreamSocket.Core.{
  SocketCore, SysCall, shutdown, close_os, init_fd, close_of, close_fd, close, shutdown_of,
  shutdown_tx, mark_rx_eof, mark_tx_shutdown,
}

-- What an owner and the awaiters of a socket may do to it.
pub data Use : Type 0 where
  closes closes_fd shuts_down marks_eof marks_shutdown : Use

-- The calls on `fd` so far: while the socket has it, at most one shutdown, and that only with the flag set;
-- and after it, that at most and the closing of `fd`.
abbrev pub Calls : ℕ → Option ℕ → Bool → List SysCall → Type 0
Calls fd none b l = (l ≡ close_os fd ∷ []) ⊎ (l ≡ shutdown fd ∷ close_os fd ∷ [])
Calls fd (some g) b l = (g ≡ fd) × ((l ≡ []) ⊎ ((l ≡ shutdown fd ∷ []) × (b ≡ true)))

abbrev pub HasCalls : {K : Type 0} → ℕ → SocketCore K → Type 0
HasCalls fd c = Calls fd c.fd c.tx_shutdown c.syscalls

shut :
    (fd g : ℕ) (b : Bool) (l : List SysCall)
    → Calls fd (some g) b l
    → b ≡ false
    → Calls fd (some g) true (l ++ shutdown g ∷ [])
shut fd g b l k e = (
  k.0,
  elim k.1 [
    | inl none_yet ↦
        inr (ap (λ m. m ++ shutdown g ∷ []) none_yet ∙ ap (λ h. shutdown h ∷ []) k.0, refl)
    | inr done ↦ (let on = done.1 in cc)
  ],
)

ended :
    (fd g : ℕ) (b b' : Bool) (l : List SysCall)
    → Calls fd (some g) b l
    → Calls fd none b' (l ++ close_os g ∷ [])
ended fd g b b' l k =
    subst (λ h. Calls fd none b' (l ++ close_os h ∷ [])) (sym k.0)
      (elim k.1 [
        | inl none_yet ↦ inl (ap (λ m. m ++ close_os fd ∷ []) none_yet)
        | inr done ↦ inr (ap (λ m. m ++ close_os fd ∷ []) done.0)
      ])

module _ {K : Type 0} (os : Epoll K) where
  unfoldable pub use_once : Use → SocketCore K → SocketCore K
  use_once closes c = close os c
  use_once closes_fd c = close_fd os c
  use_once shuts_down c = shutdown_tx c
  use_once marks_eof c = mark_rx_eof c
  use_once marks_shutdown c = mark_tx_shutdown c

  unfoldable pub use_all : List Use → SocketCore K → SocketCore K
  use_all [] c = c
  use_all (u ∷ us) c = use_all us (use_once u c)

  closed_from :
      (fd : ℕ) (o : Option ℕ) (b b' : Bool) (c : SocketCore K)
      → Calls fd o b c.syscalls
      → c.fd ≡ o
      → Calls fd (close_of os o c).fd b' (close_of os o c).syscalls
  unfolding serial_collect_waiters
  closed_from fd none b b' c k e = subst (λ o. Calls fd o b' c.syscalls) (sym e) k
  closed_from fd (some g) b b' c k e = ended fd g b b' c.syscalls k

  if-HasCalls :
      (fd : ℕ) (b : Bool) (x y : SocketCore K)
      → (b ≡ true → HasCalls fd x)
      → (b ≡ false → HasCalls fd y)
      → HasCalls fd (if b then x else y)
  if-HasCalls fd true x y f g = f refl
  if-HasCalls fd false x y f g = g refl

  shut_from :
      (fd : ℕ) (o : Option ℕ) (c : SocketCore K)
      → Calls fd o c.tx_shutdown c.syscalls
      → c.fd ≡ o
      → HasCalls fd (shutdown_of o c)
  shut_from fd none c k e = subst (λ o. Calls fd o c.tx_shutdown c.syscalls) (sym e) k
  shut_from fd (some g) c k e =
      if-HasCalls fd (not c.tx_shutdown) _ _
        (λ off.
          subst (λ o. Calls fd o true (c.syscalls ++ shutdown g ∷ [])) (sym e)
            (shut fd g c.tx_shutdown c.syscalls k (ground (arith, off))))
        (λ on. subst (λ o. Calls fd o c.tx_shutdown c.syscalls) (sym e) k)

  marked :
      (fd : ℕ) (o : Option ℕ) (b : Bool) (l : List SysCall) → Calls fd o b l → Calls fd o true l
  marked fd none b l k = k
  marked fd (some g) b l k = (k.0, elim k.1 [ inl a ↦ inl a | inr a ↦ inr (a.0, refl) ])

  pub used : (fd : ℕ) (u : Use) (c : SocketCore K) → HasCalls fd c → HasCalls fd (use_once u c)
  unfolding use_once close close_fd shutdown_tx mark_rx_eof mark_tx_shutdown
  used fd closes c k = closed_from fd c.fd c.tx_shutdown false c k refl
  used fd closes_fd c k = closed_from fd c.fd c.tx_shutdown (close_fd os c).tx_shutdown c k refl
  used fd shuts_down c k = shut_from fd c.fd c k refl
  used fd marks_eof c k = k
  used fd marks_shutdown c k = marked fd c.fd c.tx_shutdown c.syscalls k

  all_used :
      (fd : ℕ) (us : List Use) (c : SocketCore K) → HasCalls fd c → HasCalls fd (use_all us c)
  unfolding use_all
  all_used fd [] c k = k
  all_used fd (u ∷ us) c k = all_used fd us (use_once u c) (used fd u c k)

  -- Whatever is done to a new socket, in any order: its descriptor is shut down at most once, and never after
  -- it was closed; and it is closed exactly if the socket has given it up, once and last.
  pub use_all-HasCalls :
      (fd : ℕ) (us : List Use) (exec : Executor) (r : EpollReactor K) (c : SocketCore K)
      → init_fd os (some fd) exec r ≡ some c
      → HasCalls fd (use_all us c)
  unfolding init_fd
  use_all-HasCalls fd us exec r c e =
      all_used fd us c (subst (HasCalls fd) (some-injective _ _ e) (refl, inl refl))
