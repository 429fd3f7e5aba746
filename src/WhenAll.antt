-- ===== src/WhenAll.antt =====
-- task/when_all.hpp: `WhenAllAwaiter`, which waits for several tasks. A child is taken by what its
-- `resume()` in `await_suspend` does.
pub mod Completion
mod Examples
use co_wq.Prelude.{ℕ, zero, suc, ◌+◌, ◌-◌, ◌^◌, Bool, List, [], ◌∷◌, length, ◌==◌, if◌then◌else◌}

-- `child.get()` is null, or the child comes to its end before `resume()` returns, or it suspends.
pub data Child : Type 0 where
  no_handle finishes_now suspends : Child

-- `previous` is the waiting coroutine from `await_suspend` on; `resumes` counts `previous.resume()`.
pub record WhenAllCtlBlock : Type 0 where
  pub count : ℕ
  pub resumes : ℕ

-- `--c->count`, which wraps at zero.
abbrev count_down : ℕ → ℕ
count_down zero = 2 ^ 64 - 1
count_down (suc n) = n

pub on_completed : WhenAllCtlBlock → WhenAllCtlBlock
on_completed c =
    let count = count_down c.count in
    record { count = count; resumes = if count == 0 then suc c.resumes else c.resumes }

pub start_all : List Child → WhenAllCtlBlock → WhenAllCtlBlock
start_all [] c = c
start_all (no_handle ∷ ts) c = start_all ts c
start_all (finishes_now ∷ ts) c = start_all ts (on_completed c)
start_all (suspends ∷ ts) c = start_all ts c

pub await_suspend : List Child → WhenAllCtlBlock
await_suspend tasks = start_all tasks (record { count = length tasks; resumes = 0 })

-- A number of suspended children that come to their end later.
pub complete_later : ℕ → WhenAllCtlBlock → WhenAllCtlBlock
complete_later zero c = c
complete_later (suc n) c = complete_later n (on_completed c)
