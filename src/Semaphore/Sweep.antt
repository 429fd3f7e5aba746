-- ===== src/Semaphore/Sweep.antt =====
-- One run of `sem_chk_cb` serves the waiters in order, as far as the tokens go.
use co_wq.Prelude.{
  ℕ, ◌+◌, ◌-◌, ◌≡◌, refl, ◌⊎◌, inl, inr, Bool, true, List, [], ◌∷◌, ◌++◌, map, append-nil, sym,
  length, if◌then◌else◌, Bool-cases, arith,
}
use co_wq.Semaphore.{
  Semaphore, ReqSta, req_ok, resume, sweep, contains, set_sta, sem_chk_cb, is_empty,
}

-- The waiters that were not cancelled.
abbrev pub live : (ℕ → Bool) → List ℕ → List ℕ
live cancelled [] = []
live cancelled (r ∷ rs) = if cancelled r then live cancelled rs else r ∷ live cancelled rs

-- Without tokens nothing is granted.
sweep_exhausted :
    (c : ℕ → Bool) (rs : List ℕ) (val : ℕ)
    → val ≡ 0
    → ((sweep c rs val).granted ≡ [])
      × ((sweep c rs val).kept ≡ live c rs)
      × ((sweep c rs val).val ≡ 0)
unfolding sweep
sweep_exhausted c [] val e = (refl, refl, e)
sweep_exhausted c (r ∷ rs) val e = ground (arith, sweep_exhausted c rs val e)

pub sweep-live :
    (c : ℕ → Bool) (rs : List ℕ) (val : ℕ)
    → let w = sweep c rs val in
      (w.granted ++ w.kept ≡ live c rs)
      × (w.val + length w.granted ≡ val)
      × ((w.val ≡ 0) ⊎ (w.kept ≡ []))
unfolding sweep
sweep-live c [] val = (refl, omega arith, inr refl)
sweep-live c (r ∷ rs) val =
    ground (arith, sweep-live c rs val, sweep-live c rs (val - 1), sweep_exhausted c rs val)

contains-set_sta :
    (v : ReqSta) (rs : List ℕ) (f : ℕ → ReqSta) (a : ℕ)
    → contains a rs ≡ true
    → set_sta v rs f a ≡ v
unfolding set_sta
contains-set_sta v rs f a h = rw h

-- What `sem_chk_cb` did to `s`: it granted the requests `granted`.
pub record Served (s t : Semaphore) : Type 0 where
  pub granted : List ℕ
  pub queued : t.queue ≡ s.queue ++ map resume granted
  pub in_order : granted ++ t.acquire_list ≡ live s.cancelled s.acquire_list
  pub paid : t.cur_val + length granted ≡ s.cur_val
  pub all_served : (t.cur_val ≡ 0) ⊎ (t.acquire_list ≡ [])
  pub marked : (a : ℕ) → contains a granted ≡ true → t.req_sta a ≡ req_ok

-- One run of `sem_chk_cb` grants the waiters that were not cancelled from the front on, one token
-- each, until the tokens or the waiters run out. It queues those granted in order, marks them
-- `REQ_OK` and drops the cancelled ones, which take no token. The others keep their places.
pub sem_chk_cb-Served : (s : Semaphore) → Served s (sem_chk_cb s)
unfolding sem_chk_cb
sem_chk_cb-Served s = elim (Bool-cases (is_empty s.acquire_list)) [
  | inl none_wait ↦
      rw (none_wait, sem_chk_cb)
        (record {
          granted = [];
          queued = sym (append-nil s.queue);
          in_order = ground arith;
          paid = omega arith;
          all_served = inr (ground arith);
          marked = λ a h. cc;
        })
  | inr some_wait ↦
      let w = sweep s.cancelled s.acquire_list s.cur_val in
      let h = sweep-live s.cancelled s.acquire_list s.cur_val in
      rw (some_wait, sem_chk_cb)
        (record {
          granted = w.granted;
          queued = refl;
          in_order = h.0;
          paid = h.1;
          all_served = h.2;
          marked = contains-set_sta req_ok w.granted s.req_sta;
        })
]
