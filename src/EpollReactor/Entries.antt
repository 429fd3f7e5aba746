-- ===== src/EpollReactor/Entries.antt =====
-- The entries of `_fds`: what is found after a change.
use co_wq.Prelude.{
  ℕ, ◌≡◌, refl, sym, ap, subst, ◌∙◌, ◌≢◌, inl, inr, Bool, true, false, none, some, List, [], ◌∷◌,
  ◌==◌, ==_iff, if◌then◌else◌, Bool-cases, arith,
}
use co_wq.EpollReactor.{
  Epoll, WaiterItem, FdState, find, put, erase, union_from, update_fd_interest_unlocked,
}

pub same_key : (a b : ℕ) → (a == b) ≡ true → a ≡ b
same_key a b e = (==_iff a b).0 e

pub same_key_refl : (a : ℕ) → (a == a) ≡ true
same_key_refl a = (==_iff a a).1 refl

pub other_key : (a b : ℕ) → a ≢ b → (a == b) ≡ false
other_key a b n = elim (Bool-cases (a == b)) [ inl e ↦ absurd (n (same_key a b e)) | inr e ↦ e ]

pub find-put :
    (fd : ℕ) (st : FdState) (fds : List (ℕ × FdState)) → find fd (put fd st fds) ≡ some st
find-put fd st [] = rw (same_key_refl fd) refl
find-put fd st ((key, old) ∷ fds) = elim (Bool-cases (key == fd)) [
  | inl e ↦ rw e (rw e refl)
  | inr e ↦ rw e (rw e (find-put fd st fds))
]

below :
    (f key : ℕ) (st : FdState) (fds fds' : List (ℕ × FdState))
    → find f fds' ≡ find f fds
    → find f ((key, st) ∷ fds') ≡ find f ((key, st) ∷ fds)
below f key st fds fds' e = ap (λ x. if key == f then some st else x) e

pub differ : (a b : ℕ) → (a == b) ≡ false → a ≢ b
differ a b e = ground (arith, e)

pub find-put_other :
    (f fd : ℕ) (st : FdState) (fds : List (ℕ × FdState))
    → fd ≢ f
    → find f (put fd st fds) ≡ find f fds
find-put_other f fd st [] n = rw (other_key fd f n) refl
find-put_other f fd st ((key, old) ∷ fds) n = elim (Bool-cases (key == fd)) [
  | inl e ↦ rw e (rw (other_key key f (λ k. n (sym (same_key key fd e) ∙ k))) refl)
  | inr e ↦ rw e (below f key old fds (put fd st fds) (find-put_other f fd st fds n))
]

-- Each key stands once.
pub data Distinct : List (ℕ × FdState) → Type 0 where
  no_entry : Distinct []
  entry :
      (key : ℕ) (st : FdState) (fds : List (ℕ × FdState))
      → find key fds ≡ none
      → Distinct fds
      → Distinct ((key, st) ∷ fds)

pub Distinct-put :
    (fd : ℕ) (st : FdState) (fds : List (ℕ × FdState)) → Distinct fds → Distinct (put fd st fds)
Distinct-put fd st [] d = entry fd st [] refl no_entry
Distinct-put fd st ((key, old) ∷ fds) (entry _ _ _ n d) = elim (Bool-cases (key == fd)) [
  | inl e ↦ rw e (entry key st fds n d)
  | inr e ↦ rw e (
      entry key old (put fd st fds)
        (find-put_other key fd st fds (λ k. absurd (differ key fd e (sym k))) ∙ n)
        (Distinct-put fd st fds d))
]

pub find-erase : (fd : ℕ) (fds : List (ℕ × FdState)) → Distinct fds → find fd (erase fd fds) ≡ none
find-erase fd [] d = refl
find-erase fd ((key, st) ∷ fds) (entry _ _ _ n d) = elim (Bool-cases (key == fd)) [
  | inl e ↦ rw e (subst (λ k. find k fds ≡ none) (same_key key fd e) n)
  | inr e ↦ rw e (rw e (find-erase fd fds d))
]

pub find-erase_other :
    (f fd : ℕ) (fds : List (ℕ × FdState)) → fd ≢ f → find f (erase fd fds) ≡ find f fds
find-erase_other f fd [] n = refl
find-erase_other f fd ((key, st) ∷ fds) n = elim (Bool-cases (key == fd)) [
  | inl e ↦ rw e (rw (other_key key f (λ k. n (sym (same_key key fd e) ∙ k))) refl)
  | inr e ↦ rw e (below f key st fds (erase fd fds) (find-erase_other f fd fds n))
]

pub Distinct-erase : (fd : ℕ) (fds : List (ℕ × FdState)) → Distinct fds → Distinct (erase fd fds)
Distinct-erase fd [] d = no_entry
Distinct-erase fd ((key, st) ∷ fds) (entry _ _ _ n d) = elim (Bool-cases (key == fd)) [
  | inl e ↦ rw e d
  | inr e ↦ rw e (
      entry key st (erase fd fds)
        (find-erase_other key fd fds (λ k. absurd (differ key fd e (sym k))) ∙ n)
        (Distinct-erase fd fds d))
]

-- An update leaves the waiters.
module _ {K : Type 0} (os : Epoll K) where
  if-waiters :
      (a b : Bool) (x y z : FdState × K) (ws : List WaiterItem)
      → x.0.waiters ≡ ws
      → y.0.waiters ≡ ws
      → z.0.waiters ≡ ws
      → (if a then x else if b then y else z).0.waiters ≡ ws
  if-waiters true b x y z ws f g h = f
  if-waiters false true x y z ws f g h = g
  if-waiters false false x y z ws f g h = h

  pub update-waiters :
      (fd : ℕ) (st : FdState) (k : K)
      → (update_fd_interest_unlocked os fd st k).0.waiters ≡ st.waiters
  unfolding update_fd_interest_unlocked
  update-waiters fd st k =
      if-waiters (union_from 0 st.waiters == st.interest) (union_from 0 st.waiters == 0) _ _ _ _
        refl refl refl
