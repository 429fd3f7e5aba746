-- ===== src/Dns/Async.antt =====
-- net/dns_resolver.cpp: `async_resolver`, the queue of jobs with the threads that work on it, and the resuming of the
-- coroutines. A job and a thread are named by numbers. Each step holds the mutex, or is done by one
-- thread alone, so a run is a sequence of steps. The executor's queue holds only resume nodes here.
use co_wq.Prelude.{
  ℕ, Bool, true, false, not, ◌&&◌, ◌||◌, Option, none, some, List, [], ◌∷◌, ◌++◌, ◌==◌,
  if◌then◌else◌,
}

-- `working` holds the jobs that threads have taken and not yet resolved, `exited` the threads that returned.
-- Three logs: the jobs enqueued, those taken, and those whose coroutine was resumed.
pub record AsyncResolver : Type 0 where
  pub queue : List ℕ
  pub stop : Bool
  pub working : List (ℕ × ℕ)
  pub exited : List ℕ
  pub exec : List ℕ
  pub enqueued : List ℕ
  pub taken : List ℕ
  pub resumed : List ℕ

unfoldable pub async_resolver : AsyncResolver
async_resolver = record {
  queue = [];
  stop = false;
  working = [];
  exited = [];
  exec = [];
  enqueued = [];
  taken = [];
  resumed = [];
}

abbrev pub is_working : ℕ → List (ℕ × ℕ) → Bool
is_working t [] = false
is_working t ((u, job) ∷ ws) = u == t || is_working t ws

abbrev pub contains : ℕ → List ℕ → Bool
contains t [] = false
contains t (u ∷ us) = u == t || contains t us

abbrev pub is_empty : List ℕ → Bool
is_empty [] = true
is_empty (x ∷ xs) = false

-- `Awaitable::await_suspend` and `Impl::enqueue`.
unfoldable pub enqueue : ℕ → AsyncResolver → AsyncResolver
enqueue job r = record r { queue = r.queue ++ job ∷ []; enqueued = r.enqueued ++ job ∷ [] }

-- A thread that waits is in the condition variable, or comes to it.
abbrev pub waits : ℕ → AsyncResolver → Bool
waits t r = not (is_working t r.working) && not (contains t r.exited)

abbrev pub take_from : ℕ → List ℕ → AsyncResolver → AsyncResolver
take_from t [] r = if r.stop then record r { exited = t ∷ r.exited } else r
take_from t (job ∷ jobs) r = record r {
  queue = jobs;
  working = (t, job) ∷ r.working;
  taken = r.taken ++ job ∷ [];
}

-- The locked part of `worker_loop`: a job is taken, or the thread returns, or it goes on waiting.
unfoldable pub worker_take : ℕ → AsyncResolver → AsyncResolver
worker_take t r = if waits t r then take_from t r.queue r else r

abbrev pub job_of : ℕ → List (ℕ × ℕ) → Option ℕ
job_of t [] = none
job_of t ((u, job) ∷ ws) = let rest = job_of t ws in if u == t then some job else rest

abbrev pub without : ℕ → List (ℕ × ℕ) → List (ℕ × ℕ)
without t [] = []
without t ((u, job) ∷ ws) = let rest = without t ws in if u == t then ws else (u, job) ∷ rest

-- `post_result`: with no executor the thread resumes the coroutine itself.
abbrev pub post_result : Bool → ℕ → AsyncResolver → AsyncResolver
post_result has_exec job r =
    if has_exec
    then record r { exec = r.exec ++ job ∷ [] }
    else record r { resumed = r.resumed ++ job ∷ [] }

abbrev pub finish_job : Bool → ℕ → Option ℕ → AsyncResolver → AsyncResolver
finish_job has_exec t none r = r
finish_job has_exec t (some job) r =
    post_result has_exec job (record r { working = without t r.working })

-- The rest of a round of `worker_loop`, once `resolve_core` has returned.
unfoldable pub worker_finish : (ℕ → Bool) → ℕ → AsyncResolver → AsyncResolver
worker_finish has_exec t r =
    let o = job_of t r.working in
    finish_job (elim o [ none ↦ false | some job ↦ has_exec job ]) t o r

abbrev pub run_node : List ℕ → AsyncResolver → AsyncResolver
run_node [] r = r
run_node (job ∷ jobs) r = record r { exec = jobs; resumed = r.resumed ++ job ∷ [] }

-- The executor runs a `ResumeNode`.
unfoldable pub resume_run : AsyncResolver → AsyncResolver
resume_run r = run_node r.exec r

-- The first half of the destructor, which then waits for the threads.
unfoldable pub request_stop : AsyncResolver → AsyncResolver
request_stop r = record r { stop = true }

pub data Step : Type 0 where
  enqueues takes finishes : ℕ → Step
  runs stops : Step

unfoldable pub apply : (ℕ → Bool) → Step → AsyncResolver → AsyncResolver
apply has_exec (enqueues job) r = enqueue job r
apply has_exec (takes t) r = worker_take t r
apply has_exec (finishes t) r = worker_finish has_exec t r
apply has_exec runs r = resume_run r
apply has_exec stops r = request_stop r

unfoldable pub run : (ℕ → Bool) → List Step → AsyncResolver → AsyncResolver
run has_exec [] r = r
run has_exec (s ∷ ss) r = run has_exec ss (apply has_exec s r)
