-- ===== src/Timer.antt =====
-- sync/timer.hpp: `Timer_check_queue`, a pairing heap of timer nodes by expiry. A node is named by
-- its address. The heap is the nodes' `child` and `sibling` pointers as a binary tree; `parent`
-- serves only to find a node's place, which a search of the tree does here. Times are numbers of
-- one steady clock, and `now` is an argument.
pub mod Merging
pub mod Expiry
pub mod Membership
pub mod Scheduling
pub mod Delay
pub mod Examples
use co_wq.Prelude.{
  ℕ, zero, suc, ◌+◌, Bool, true, false, Option, none, some, List, [], ◌∷◌, ◌++◌, leb, ◌==◌,
  if◌then◌else◌, map,
}

pub data Heap : Type 0 where
  nil : Heap
  node : (id expire : ℕ) → (child sibling : Heap) → Heap

pub heap_meld : Heap → Heap → Heap
heap_meld nil b = b
heap_meld (node x e c s) nil = node x e c s
heap_meld (node x e c s) (node y f d t) =
    if leb e f then node x e (node y f d c) s else node y f (node x e c d) t

-- The first two trees of a list of children lose their siblings, and are melded.
pub two_pass_merge : Heap → Heap
two_pass_merge nil = nil
two_pass_merge (node x e c nil) = node x e c nil
two_pass_merge (node x e c (node y f d rest)) =
    heap_meld (heap_meld (node x e c nil) (node y f d nil)) (two_pass_merge rest)

pub delete_min : Heap → Heap
delete_min nil = nil
delete_min (node x e c s) = two_pass_merge c

-- The node `id` below the root: its child list, and the tree without the node and that list.
pub detach : ℕ → Heap → Option (Heap × Heap)
detach id nil = none
detach id (node x e c s) =
    let below = detach id c in
    let beside = detach id s in
    if x == id then some (c, s) else elim below [
      | some (d, c') ↦ some (d, node x e c' s)
      | none ↦ elim beside [ some (d, s') ↦ some (d, node x e c s') | none ↦ none ]
    ]

-- `owned` tells which nodes' `owner_queue` is this queue, `has_func` which have a callback, and
-- `queue` holds the timer nodes that were handed to the executor.
pub record TimerQueue : Type 0 where
  pub heap_root : Heap
  pub owned : ℕ → Bool
  pub has_func : ℕ → Bool
  pub queue : List ℕ
  pub trigs : ℕ

abbrev pub set_owned : ℕ → Bool → (ℕ → Bool) → ℕ → Bool
set_owned id b f a = if a == id then b else f a

-- `while (heap_root && heap_root->expire <= now)`: the nodes taken off, and the heap left. Each round
-- takes a node off, so the number of nodes is enough fuel.
pub pop_expired : ℕ → ℕ → Heap → List (ℕ × ℕ) × Heap
pop_expired zero now h = ([], h)
pop_expired (suc fuel) now nil = ([], nil)
pop_expired (suc fuel) now (node x e c s) =
    let rest = pop_expired fuel now (delete_min (node x e c s)) in
    if leb e now then ((x, e) ∷ rest.0, rest.1) else ([], node x e c s)

pub size : Heap → ℕ
size nil = 0
size (node x e c s) = suc (size c + size s)

-- Each node taken off loses its owner, and goes to the executor if it has a callback.
pub hand_over : List (ℕ × ℕ) → TimerQueue → TimerQueue
hand_over [] q = q
hand_over ((x, e) ∷ xs) q = hand_over xs (record q {
  owned = set_owned x false q.owned;
  queue = if q.has_func x then q.queue ++ x ∷ [] else q.queue;
})

abbrev any_func : (ℕ → Bool) → List (ℕ × ℕ) → Bool
any_func f [] = false
any_func f ((x, e) ∷ xs) = if f x then true else any_func f xs

pub tim_chk_cb : ℕ → TimerQueue → TimerQueue
tim_chk_cb now q =
    let (popped, rest) = pop_expired (size q.heap_root) now q.heap_root in
    let q' = hand_over popped (record q { heap_root = rest }) in
    if any_func q.has_func popped then record q' { trigs = suc q'.trigs } else q'

pub post_delayed_work : (now id ms : ℕ) → TimerQueue → TimerQueue
post_delayed_work now id ms q = record q {
  heap_root = heap_meld q.heap_root (node id (now + ms) nil nil);
  owned = set_owned id true q.owned;
}

-- `node == heap_root`
abbrev is_root : ℕ → Heap → Bool
is_root id nil = false
is_root id (node x e c s) = x == id

abbrev reattach : Heap → Heap → Heap
reattach nil rest = rest
reattach (node x e c s) rest = heap_meld rest (two_pass_merge (node x e c s))

pub cancel : ℕ → TimerQueue → TimerQueue
cancel id q =
    if q.owned id
    then (let h : Heap =
          if is_root id q.heap_root then delete_min q.heap_root else elim (detach id q.heap_root) [
            | some (d, rest) ↦ reattach d rest
            | none ↦ q.heap_root
          ] in
        record q { heap_root = h; owned = set_owned id false q.owned })
    else q

-- `DelayAwaiter::await_suspend`: the coroutine's node gets its callback, and is posted.
pub delay_suspend : (now id wait_ms : ℕ) → TimerQueue → TimerQueue
delay_suspend now id wait_ms q =
    post_delayed_work now id wait_ms (record q { has_func = set_owned id true q.has_func })
