-- ===== src/Semaphore.antt =====
-- sync/semaphore.hpp: `Semaphore` and its requests, over the run queue of its executor. Each
-- operation holds the executor's lock, so it is one step. A request is named by a number, its node's
-- address. Counters are `int` in the source; here they are natural numbers, since every use
-- constructs them so, and no operation takes `_cur_val` below 0 or above `_max_val`.
pub mod Sweep
pub mod Wakeup
pub mod Awaiter
mod Examples
use co_wq.Prelude.{
  ℕ, suc, ◌+◌, ◌-◌, Bool, true, false, not, List, [], ◌∷◌, ◌++◌, map, ltb, ◌==◌, if◌then◌else◌,
}

-- `Sem_req::req_sta`
pub data ReqSta : Type 0 where
  req_ok req_fail req_time_out : ReqSta

-- A node in the executor's queue: the semaphore's own, whose `func` is `sem_chk_cb`, or a request,
-- whose `func` resumes its coroutine.
pub data Work : Type 0 where
  check : Work
  resume : ℕ → Work

pub record Semaphore : Type 0 where
  pub cur_val : ℕ
  pub max_val : ℕ
  pub acquire_list : List ℕ
  pub cancelled : ℕ → Bool
  pub req_sta : ℕ → ReqSta
  pub queue : List Work
  pub trigs : ℕ

abbrev pub is_empty {ℓ} : {A : Type ℓ} → List A → Bool
is_empty [] = true
is_empty (x ∷ xs) = false

abbrev pub erase : ℕ → List ℕ → List ℕ
erase r [] = []
erase r (x ∷ xs) = if r == x then xs else x ∷ erase r xs

abbrev pub contains : ℕ → List ℕ → Bool
contains r [] = false
contains r (x ∷ xs) = if r == x then true else contains r xs

-- What one walk over the waiters leaves: the counter, the waiters kept and those granted.
pub record Swept : Type 0 where
  pub val : ℕ
  pub kept : List ℕ
  pub granted : List ℕ

-- `list_for_each_entry_safe (pos, n, &acquire_list, ...)` of `sem_chk_cb`.
pub sweep : (ℕ → Bool) → List ℕ → ℕ → Swept
sweep cancelled [] val = record { val = val; kept = []; granted = [] }
sweep cancelled (r ∷ rs) val = elim (cancelled r) [
  | true ↦ sweep cancelled rs val
  | false ↦ elim (ltb 0 val) [
    | true ↦ let rest = sweep cancelled rs (val - 1) in record rest { granted = r ∷ rest.granted }
    | false ↦ let rest = sweep cancelled rs val in record rest { kept = r ∷ rest.kept }
  ]
]

-- `req_sta` of each request of a list set to one value.
pub set_sta : ReqSta → List ℕ → (ℕ → ReqSta) → ℕ → ReqSta
set_sta v rs f a = if contains a rs then v else f a

-- `add_new_nolock` of each request, and `trig_once` if there was one.
abbrev enqueue_all : List ℕ → Semaphore → Semaphore
enqueue_all rs s = record s {
  queue = s.queue ++ map resume rs;
  trigs = if is_empty rs then s.trigs else suc s.trigs;
}

pub sem_chk_cb : Semaphore → Semaphore
sem_chk_cb s =
    if is_empty s.acquire_list
    then s
    else let w = sweep s.cancelled s.acquire_list s.cur_val in
      enqueue_all w.granted (record s {
        cur_val = w.val;
        acquire_list = w.kept;
        req_sta = set_sta req_ok w.granted s.req_sta;
      })

-- `~Semaphore`
pub destroy : Semaphore → Semaphore
destroy s =
    if is_empty s.acquire_list
    then s
    else enqueue_all s.acquire_list
        (record s { acquire_list = []; req_sta = set_sta req_fail s.acquire_list s.req_sta })

pub cancel_waiter : ℕ → Semaphore → Bool × Semaphore
cancel_waiter r s = (
  contains r s.acquire_list,
  record s {
    cancelled = λ a. if a == r then true else s.cancelled a;
    acquire_list = erase r s.acquire_list;
  },
)

pub acquire : ℕ → Semaphore → Semaphore
acquire r s =
    if ltb 0 s.cur_val
    then record s { cur_val = s.cur_val - 1; queue = s.queue ++ resume r ∷ [] }
    else record s { acquire_list = s.acquire_list ++ r ∷ [] }

pub try_acquire : Semaphore → Bool × Semaphore
try_acquire s = if ltb 0 s.cur_val then (true, record s { cur_val = s.cur_val - 1 }) else (false, s)

-- `list_del` of the semaphore's node, which is in the queue at most once.
abbrev pub without_check : List Work → List Work
without_check [] = []
without_check (check ∷ ws) = ws
without_check (resume r ∷ ws) = resume r ∷ without_check ws

-- `_executor.post(*this)`
pub post_check : Semaphore → Semaphore
post_check s = record s { queue = without_check s.queue ++ check ∷ []; trigs = suc s.trigs }

pub release : Semaphore → Semaphore
release s =
    if ltb s.cur_val s.max_val
    then (let t = record s { cur_val = s.cur_val + 1 } in
        if is_empty s.acquire_list then t else post_check t)
    else s

-- `work_once` on this semaphore's executor. A request's `func` resumes a coroutine, which is none
-- of the semaphore's state.
abbrev dispatch : List Work → Semaphore → Semaphore
dispatch [] s = s
dispatch (check ∷ ws) s = sem_chk_cb (record s { queue = ws })
dispatch (resume r ∷ ws) s = record s { queue = ws }

pub work_once : Semaphore → Semaphore
work_once s = dispatch s.queue s

-- `Semaphore(exec, init_val, max_val)`, over an empty run queue. What a request's `req_sta` holds
-- before it is set is not determined by the source: `junk`.
pub init : (init_val max_val : ℕ) → (junk : ℕ → ReqSta) → Semaphore
init init_val max_val junk = record {
  cur_val = init_val;
  max_val = max_val;
  acquire_list = [];
  cancelled = λ _. false;
  req_sta = junk;
  queue = [];
  trigs = 0;
}
