-- ===== src/Dns/Resuming.antt =====
-- The jobs are taken in the order in which they are enqueued, and each is in one place at a time.
use co_wq.Prelude.{
  ℕ, ◌+◌, ◌≡◌, refl, sym, ap, ◌∙◌, inl, inr, Bool, true, false, Option, none, some, List, [], ◌∷◌,
  ◌++◌, append_assoc, ◌==◌, if◌then◌else◌, Bool-cases, arith,
}
use co_wq.Dns.Async.{
  AsyncResolver, async_resolver, enqueue, waits, take_from, worker_take, job_of, without,
  post_result, finish_job, worker_finish, run_node, resume_run, request_stop, Step, enqueues, takes,
  finishes, runs, stops, apply, run,
}

abbrev pub occurs : ℕ → List ℕ → ℕ
occurs j [] = 0
occurs j (x ∷ xs) = (if x == j then 1 else 0) + occurs j xs

abbrev pub jobs_of : List (ℕ × ℕ) → List ℕ
jobs_of [] = []
jobs_of ((t, job) ∷ ws) = job ∷ jobs_of ws

-- `in_order` is that the jobs are taken in the order of enqueuing, `once` that each job that was taken is with a
-- thread, or with the executor, or its coroutine was resumed.
pub record Keeps (r : AsyncResolver) : Type 0 where
  pub in_order : r.enqueued ≡ r.taken ++ r.queue
  pub once :
      (j : ℕ)
      → occurs j r.taken ≡ occurs j (jobs_of r.working) + occurs j r.exec + occurs j r.resumed

occurs-append : (j : ℕ) (xs ys : List ℕ) → occurs j (xs ++ ys) ≡ occurs j xs + occurs j ys
occurs-append j [] ys = omega arith
occurs-append j (x ∷ xs) ys = omega (arith, occurs-append j xs ys)

if-Keeps : (b : Bool) (x y : AsyncResolver) → Keeps x → Keeps y → Keeps (if b then x else y)
if-Keeps true x y k l = k
if-Keeps false x y k l = l

take_from-Keeps :
    (t : ℕ) (q : List ℕ) (r : AsyncResolver) → r.queue ≡ q → Keeps r → Keeps (take_from t q r)
take_from-Keeps t [] r e k = if-Keeps r.stop _ _ (record { in_order = k.in_order; once = k.once }) k
take_from-Keeps t (job ∷ jobs) r e k = record {
  in_order = k.in_order ∙ ap (λ q. r.taken ++ q) e ∙ sym (append_assoc r.taken (job ∷ []) jobs);
  once = λ j. omega (arith, k.once j, occurs-append j r.taken (job ∷ []));
}

occurs-without :
    (j t job : ℕ) (ws : List (ℕ × ℕ))
    → job_of t ws ≡ some job
    → occurs j (jobs_of ws) ≡ (if job == j then 1 else 0) + occurs j (jobs_of (without t ws))
occurs-without j t job [] e = cc
occurs-without j t job ((u, x) ∷ ws) e = elim (Bool-cases (u == t)) [
  | inl here ↦
      let same : x ≡ job = ground (arith, here, e) in
      rw here (ap (λ y. (if y == j then 1 else 0) + occurs j (jobs_of ws)) same)
  | inr later ↦
      let rest = occurs-without j t job ws (ground (arith, later, e)) in
      rw later (omega (arith, rest))
]

posted-Keeps :
    (b : Bool) (t job : ℕ) (r : AsyncResolver)
    → job_of t r.working ≡ some job
    → Keeps r
    → Keeps (post_result b job (record r { working = without t r.working }))
posted-Keeps true t job r e k = record {
  in_order = k.in_order;
  once = λ j.
      omega
        (arith, k.once j, occurs-without j t job r.working e, occurs-append j r.exec (job ∷ []));
}
posted-Keeps false t job r e k = record {
  in_order = k.in_order;
  once = λ j.
      omega
        (arith, k.once j, occurs-without j t job r.working e, occurs-append j r.resumed (job ∷ []));
}

finish_job-Keeps :
    (b : Bool) (t : ℕ) (o : Option ℕ) (r : AsyncResolver)
    → job_of t r.working ≡ o
    → Keeps r
    → Keeps (finish_job b t o r)
finish_job-Keeps b t none r e k = k
finish_job-Keeps b t (some job) r e k = posted-Keeps b t job r e k

run_node-Keeps : (l : List ℕ) (r : AsyncResolver) → r.exec ≡ l → Keeps r → Keeps (run_node l r)
run_node-Keeps [] r e k = k
run_node-Keeps (job ∷ jobs) r e k = record {
  in_order = k.in_order;
  once = λ j. omega (arith, k.once j, ap (occurs j) e, occurs-append j r.resumed (job ∷ []));
}

module _ (has_exec : ℕ → Bool) where
  apply-Keeps : (s : Step) (r : AsyncResolver) → Keeps r → Keeps (apply has_exec s r)
  unfolding apply enqueue worker_take worker_finish resume_run request_stop
  apply-Keeps (enqueues job) r k = record {
    in_order = ap (λ l. l ++ job ∷ []) k.in_order ∙ append_assoc r.taken r.queue (job ∷ []);
    once = k.once;
  }
  apply-Keeps (takes t) r k = if-Keeps (waits t r) _ _ (take_from-Keeps t r.queue r refl k) k
  apply-Keeps (finishes t) r k = finish_job-Keeps _ t (job_of t r.working) r refl k
  apply-Keeps runs r k = run_node-Keeps r.exec r refl k
  apply-Keeps stops r k = record { in_order = k.in_order; once = k.once }

  run-Keeps : (ss : List Step) (r : AsyncResolver) → Keeps r → Keeps (run has_exec ss r)
  unfolding run
  run-Keeps [] r k = k
  run-Keeps (s ∷ ss) r k = run-Keeps ss (apply has_exec s r) (apply-Keeps s r k)

  -- However the steps of the threads, of the callers and of the executor follow each other, the threads take the
  -- jobs in the order of enqueuing, none lost and none twice, and each job that was taken is with one
  -- thread, or its resume node is queued in the executor, or its coroutine was resumed, exactly one of these
  -- and once.
  pub run-async_resolver-Keeps : (ss : List Step) → Keeps (run has_exec ss async_resolver)
  unfolding async_resolver
  run-async_resolver-Keeps ss =
      run-Keeps ss async_resolver (record { in_order = refl; once = λ j. refl })
