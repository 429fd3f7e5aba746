-- ===== src/WorkQueue.antt =====
-- task/usrlist.hpp and task/workqueue.hpp: the intrusive lists, on a memory of `next` and `prev` links by
-- address, and the run queue that is one.
pub mod Chain
pub mod Fifo
pub mod Splice
mod Examples
use co_wq.Prelude.{ℕ, suc, Bool, true, false, Option, none, some, ◌==◌, if◌then◌else◌}

-- Every `list_head` of the memory.
pub record Links : Type 0 where
  pub next : ℕ → ℕ
  pub prev : ℕ → ℕ

abbrev pub set : ℕ → ℕ → (ℕ → ℕ) → ℕ → ℕ
set a v f b = if b == a then v else f b

abbrev pub set_next : ℕ → ℕ → Links → Links
set_next a v l = record l { next = set a v l.next }

abbrev pub set_prev : ℕ → ℕ → Links → Links
set_prev a v l = record l { prev = set a v l.prev }

pub init_list_head : ℕ → Links → Links
init_list_head list l = set_prev list list (set_next list list l)

-- `__list_add`
pub insert_between : (pnew prev next : ℕ) → Links → Links
insert_between pnew prev next l =
    set_next prev pnew (set_prev pnew prev (set_next pnew next (set_prev next pnew l)))

pub list_add : ℕ → ℕ → Links → Links
list_add pnew head l = insert_between pnew head (l.next head) l

pub list_add_tail : ℕ → ℕ → Links → Links
list_add_tail pnew head l = insert_between pnew (l.prev head) head l

-- `__list_del`
pub unlink_between : (prev next : ℕ) → Links → Links
unlink_between prev next l = set_next prev next (set_prev next prev l)

pub list_del : ℕ → Links → Links
list_del entry l = init_list_head entry (unlink_between (l.prev entry) (l.next entry) l)

pub list_empty : ℕ → Links → Bool
list_empty head l = l.next head == head

-- A queue with `ws_head` at the address `head`; `trigs` counts the calls of `trig`.
pub record WorkQueue : Type 0 where
  pub head : ℕ
  pub links : Links
  pub trigs : ℕ

pub post : ℕ → WorkQueue → WorkQueue
post pnode q = record q {
  links = list_add_tail pnode q.head (list_del pnode q.links);
  trigs = suc q.trigs;
}

-- The links that `post(batch_head)` sets: the nodes of the batch go behind those of the queue.
unfoldable pub splice_tail : (batch_head ws_head : ℕ) → Links → Links
splice_tail batch_head ws_head l =
    let first = l.next batch_head in
    let last = l.prev batch_head in
    let l1 = set_prev first (l.prev ws_head) l in
    let l2 = set_next (l1.prev ws_head) first l1 in
    let l3 = set_prev ws_head last (set_next last ws_head l2) in
    set_prev batch_head batch_head (set_next batch_head batch_head l3)

unfoldable pub post_batch : ℕ → WorkQueue → WorkQueue
post_batch batch_head q =
    if list_empty batch_head q.links
    then q
    else record q { links = splice_tail batch_head q.head q.links; trigs = suc q.trigs }

pub add_new_nolock : ℕ → WorkQueue → WorkQueue
add_new_nolock pnode q = record q { links = list_add_tail pnode q.head (list_del pnode q.links) }

-- `get_work_node`: the first node, which `work_once` calls, and the queue without it.
pub get_work_node : WorkQueue → Option ℕ × WorkQueue
get_work_node q =
    if list_empty q.head q.links
    then (none, q)
    else (some (q.links.next q.head), record q { links = list_del (q.links.next q.head) q.links })
