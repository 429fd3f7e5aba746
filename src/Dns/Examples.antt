-- ===== src/Dns/Examples.antt =====
-- Two lookups, and a run of two threads that resolve three names.
use co_wq.Prelude.{ℕ, ◌≡◌, refl, ◌==◌, true, List, [], ◌∷◌}
use co_wq.Dns.{AddrInfo, ResolveOptions, Resolver, af_inet, af_inet6}
use co_wq.Dns.Async.{
  Step, enqueues, takes, finishes, runs, async_resolver, run, apply, enqueue, worker_take,
  worker_finish, resume_run,
}
use co_wq.Dns.Resuming.{Keeps, run-async_resolver-Keeps}

-- 192.0.2.7, port 80, for which only IPv4 addresses exist; the first candidate has no address and another family.
abbrev local : AddrInfo
local = record { ai_family = 1; ai_addr = [] }

abbrev ipv4 : AddrInfo
ipv4 = record {
  ai_family = af_inet;
  ai_addr = 2 ∷ 0 ∷ 0 ∷ 80 ∷ 192 ∷ 0 ∷ 2 ∷ 7 ∷ 0 ∷ 0 ∷ 0 ∷ 0 ∷ 0 ∷ 0 ∷ 0 ∷ 0 ∷ [];
}

abbrev ipv4_only : Resolver
ipv4_only = record { getaddrinfo = λ node service hints. (0, local ∷ ipv4 ∷ []) }

abbrev dual_stack : ResolveOptions
dual_stack = record { family = af_inet6; allow_dual_stack = true }

abbrev bracketed : List ℕ
bracketed = b'[' ∷ b'a' ∷ b']' ∷ []

abbrev three_jobs : List Step
three_jobs =
    enqueues 5
    ∷ takes 1
    ∷ enqueues 6
    ∷ enqueues 7
    ∷ takes 2
    ∷ finishes 2
    ∷ takes 2
    ∷ runs
    ∷ finishes 1
    ∷ []

run-async_resolver-Keeps_example : Keeps (run (λ job. job == 6) three_jobs async_resolver)
run-async_resolver-Keeps_example = run-async_resolver-Keeps (λ job. job == 6) three_jobs

three_jobs-resumed : (run (λ job. job == 6) three_jobs async_resolver).resumed ≡ 6 ∷ 5 ∷ []
unfolding run apply enqueue worker_take worker_finish resume_run async_resolver
three_jobs-resumed = refl
