-- ===== src/Semaphore/Wakeup.antt =====
-- The semaphore over any history of its operations: no wake-up is lost, no token is made or lost.
use co_wq.Prelude.{
  ℕ, suc, ◌+◌, ◌-◌, ◌≤◌, ◌<◌, ◌≡◌, refl, ap, ◌⊎◌, inl, List, [], ◌∷◌, ◌++◌, map, ltb, length,
  if◌then◌else◌, arith,
}
use co_wq.Semaphore.{
  Semaphore, ReqSta, Work, check, resume, sweep, without_check, sem_chk_cb, cancel_waiter, acquire,
  try_acquire, post_check, release, dispatch, work_once, init,
}
use co_wq.Semaphore.Sweep.{sweep-live}

abbrev pub checks : List Work → ℕ
checks [] = 0
checks (check ∷ ws) = suc (checks ws)
checks (resume r ∷ ws) = checks ws

-- Requests that hold a token and have not run yet.
abbrev pub resumes : List Work → ℕ
resumes [] = 0
resumes (check ∷ ws) = resumes ws
resumes (resume r ∷ ws) = suc (resumes ws)

pub counts_of_granted :
    (ws : List Work) (rs : List ℕ)
    → (checks (ws ++ map resume rs) ≡ checks ws)
      × (resumes (ws ++ map resume rs) ≡ resumes ws + length rs)
counts_of_granted [] [] = (refl, omega arith)
counts_of_granted [] (r ∷ rs) = let h = counts_of_granted [] rs in (h.0, omega (arith, h))
counts_of_granted (check ∷ ws) rs = omega (arith, counts_of_granted ws rs)
counts_of_granted (resume r ∷ ws) rs = omega (arith, counts_of_granted ws rs)

counts_of_check :
    (ws : List Work)
    → (checks (ws ++ check ∷ []) ≡ suc (checks ws)) × (resumes (ws ++ check ∷ []) ≡ resumes ws)
counts_of_check [] = (refl, refl)
counts_of_check (check ∷ ws) = omega (arith, counts_of_check ws)
counts_of_check (resume r ∷ ws) = omega (arith, counts_of_check ws)

counts_of_posted :
    (ws : List Work)
    → (checks (without_check ws ++ check ∷ []) ≤ suc (checks ws - 1))
      × (1 ≤ checks (without_check ws ++ check ∷ []))
      × (resumes (without_check ws ++ check ∷ []) ≡ resumes ws)
counts_of_posted [] = omega arith
counts_of_posted (check ∷ ws) = omega (arith, counts_of_check ws)
counts_of_posted (resume r ∷ ws) = omega (arith, counts_of_posted ws)

-- The counter is within its bound, the semaphore's node is queued at most once, and where a token is
-- free while somebody waits, the node is queued: the wake-up is on its way.
pub record IsValid (s : Semaphore) : Type 0 where
  pub bounded : s.cur_val ≤ s.max_val
  pub once : checks s.queue ≤ 1
  pub woken : 0 < s.cur_val → (s.acquire_list ≡ []) ⊎ (checks s.queue ≡ 1)

sem_chk_cb-IsValid :
    (s : Semaphore) → s.cur_val ≤ s.max_val → checks s.queue ≤ 1 → IsValid (sem_chk_cb s)
unfolding sem_chk_cb
sem_chk_cb-IsValid s b o = ground (
  arith,
  sweep-live s.cancelled s.acquire_list s.cur_val,
  counts_of_granted s.queue (sweep s.cancelled s.acquire_list s.cur_val).granted,
)

acquire-IsValid : (r : ℕ) (s : Semaphore) → IsValid s → IsValid (acquire r s)
unfolding acquire
acquire-IsValid r s v = ground (arith, counts_of_granted s.queue (r ∷ []))

release-IsValid : (s : Semaphore) → IsValid s → IsValid (release s)
unfolding release post_check
release-IsValid s v = ground (arith, counts_of_posted s.queue)

dispatch-IsValid :
    (ws : List Work) (s : Semaphore) → s.queue ≡ ws → IsValid s → IsValid (dispatch ws s)
dispatch-IsValid [] s e v = v
dispatch-IsValid (check ∷ ws) s e v =
    sem_chk_cb-IsValid (record s { queue = ws }) v.bounded (omega (arith, v.once, ap checks e))
dispatch-IsValid (resume r ∷ ws) s e v =
    let same = ap checks e in
    record {
      bounded = v.bounded;
      once = omega (arith, v.once, same);
      woken = λ h. ground (arith, v.woken h, same);
    }

cancel_waiter-IsValid : (r : ℕ) (s : Semaphore) → IsValid s → IsValid (cancel_waiter r s).1
unfolding cancel_waiter
cancel_waiter-IsValid r s v = record {
  bounded = v.bounded;
  once = v.once;
  woken = λ h. ground (arith, v.woken h);
}

-- Whether `work_once` runs a request.
abbrev pub front_request : List Work → ℕ
front_request [] = 0
front_request (check ∷ ws) = 0
front_request (resume r ∷ ws) = 1

work_once-IsValid : (s : Semaphore) → IsValid s → IsValid (work_once s)
unfolding work_once
work_once-IsValid s v = dispatch-IsValid s.queue s refl v

-- One operation, with the tokens that its callers took and gave back by it: a request takes its
-- token when its coroutine is resumed, and a release at the bound gives nothing.
pub data Move (s t : Semaphore) (taken given : ℕ) : Type 0 where
  acquires : (r : ℕ) → t ≡ acquire r s → taken ≡ 0 → given ≡ 0 → Move s t taken given
  tries :
      t ≡ (try_acquire s).1
      → taken ≡ (if (try_acquire s).0 then 1 else 0)
      → given ≡ 0
      → Move s t taken given
  releases :
      t ≡ release s
      → taken ≡ 0
      → given ≡ (if ltb s.cur_val s.max_val then 1 else 0)
      → Move s t taken given
  cancels : (r : ℕ) → t ≡ (cancel_waiter r s).1 → taken ≡ 0 → given ≡ 0 → Move s t taken given
  works : t ≡ work_once s → taken ≡ front_request s.queue → given ≡ 0 → Move s t taken given

-- Any sequence of operations.
pub data Reach (s : Semaphore) : Semaphore → ℕ → ℕ → Type 0 where
  here : {t : Semaphore} {a b : ℕ} → t ≡ s → a ≡ 0 → b ≡ 0 → Reach s t a b
  next :
      {u t : Semaphore} {a b c d taken given : ℕ}
      → Reach s u a b
      → Move u t c d
      → taken ≡ a + c
      → given ≡ b + d
      → Reach s t taken given

-- The tokens that are free or on their way to a request.
abbrev pub tokens : Semaphore → ℕ
tokens s = s.cur_val + resumes s.queue

try_acquire-IsValid : (s : Semaphore) → IsValid s → IsValid (try_acquire s).1
unfolding try_acquire
try_acquire-IsValid s v = ground arith

Move-IsValid : {s t : Semaphore} {a b : ℕ} → Move s t a b → IsValid s → IsValid t
Move-IsValid {s} (acquires r e _ _) v = rw e (acquire-IsValid r s v)
Move-IsValid {s} (tries e _ _) v = rw e (try_acquire-IsValid s v)
Move-IsValid {s} (releases e _ _) v = rw e (release-IsValid s v)
Move-IsValid {s} (cancels r e _ _) v = rw e (cancel_waiter-IsValid r s v)
Move-IsValid {s} (works e _ _) v = rw e (work_once-IsValid s v)

tokens-acquire : (r : ℕ) (s : Semaphore) → tokens (acquire r s) ≡ tokens s
unfolding acquire
tokens-acquire r s = ground (arith, counts_of_granted s.queue (r ∷ []))

tokens-try_acquire :
    (s : Semaphore) → tokens (try_acquire s).1 + (if (try_acquire s).0 then 1 else 0) ≡ tokens s
unfolding try_acquire
tokens-try_acquire s = ground arith

tokens-release :
    (s : Semaphore) → tokens (release s) ≡ tokens s + (if ltb s.cur_val s.max_val then 1 else 0)
unfolding release post_check
tokens-release s = ground (arith, counts_of_posted s.queue)

pub tokens-sem_chk_cb : (s : Semaphore) → tokens (sem_chk_cb s) ≡ tokens s
unfolding sem_chk_cb
tokens-sem_chk_cb s = ground (
  arith,
  sweep-live s.cancelled s.acquire_list s.cur_val,
  counts_of_granted s.queue (sweep s.cancelled s.acquire_list s.cur_val).granted,
)

tokens-dispatch :
    (ws : List Work) (s : Semaphore)
    → s.queue ≡ ws
    → tokens (dispatch ws s) + front_request ws ≡ tokens s
tokens-dispatch [] s e = omega arith
tokens-dispatch (check ∷ ws) s e =
    omega (arith, tokens-sem_chk_cb (record s { queue = ws }), ap resumes e)
tokens-dispatch (resume r ∷ ws) s e = omega (arith, ap resumes e)

Move-tokens : {s t : Semaphore} {a b : ℕ} → Move s t a b → tokens t + a ≡ tokens s + b
unfolding work_once cancel_waiter
Move-tokens {s} (acquires r e f g) = rw e (omega (arith, tokens-acquire r s))
Move-tokens {s} (tries e f g) = rw e (omega (arith, tokens-try_acquire s))
Move-tokens {s} (releases e f g) = rw e (omega (arith, tokens-release s))
Move-tokens {s} (cancels r e f g) = rw e (omega arith)
Move-tokens {s} (works e f g) = rw e (omega (arith, tokens-dispatch s.queue s refl))

Reach-both :
    {s t : Semaphore} {taken given : ℕ}
    → Reach s t taken given
    → IsValid s
    → IsValid t × (tokens t + taken ≡ tokens s + given)
Reach-both (here e f g) v = (rw e v, rw e (omega arith))
Reach-both (next r m f g) v =
    let (w, sum) = Reach-both r v in (Move-IsValid m w, omega (arith, sum, Move-tokens m))

init-IsValid :
    (init_val max_val : ℕ) (junk : ℕ → ReqSta)
    → init_val ≤ max_val
    → IsValid (init init_val max_val junk)
unfolding init
init-IsValid init_val max_val junk h = record {
  bounded = h;
  once = omega arith;
  woken = λ _. inl refl;
}

-- After any history of a semaphore that starts with at most `max_val` tokens, the counter is within
-- its bound, and where a token is free while a request waits, the check that grants it is queued,
-- once: no wake-up is lost.
pub Reach-IsValid :
    (init_val max_val : ℕ) (junk : ℕ → ReqSta) {t : Semaphore} {taken given : ℕ}
    → init_val ≤ max_val
    → Reach (init init_val max_val junk) t taken given
    → IsValid t
Reach-IsValid init_val max_val junk h r = (Reach-both r (init-IsValid init_val max_val junk h)).0

-- After any history the free tokens, those granted to requests that have not run yet and those taken
-- are together the initial ones and those given back. So no operation makes a token or loses one.
pub Reach-tokens :
    (init_val max_val : ℕ) (junk : ℕ → ReqSta) {t : Semaphore} {taken given : ℕ}
    → init_val ≤ max_val
    → Reach (init init_val max_val junk) t taken given
    → t.cur_val + resumes t.queue + taken ≡ init_val + given
unfolding init
Reach-tokens init_val max_val junk h r =
    omega (arith, (Reach-both r (init-IsValid init_val max_val junk h)).1)
