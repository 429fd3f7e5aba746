-- ===== src/WorkQueue/Examples.antt =====
-- The run queue at concrete inputs: the head at address 0, and the nodes 1 and 2 posted, and then a batch with its
-- head at 5 and the nodes 3 and 4.
use co_wq.Prelude.{◌≡◌, refl, some, [], ◌∷◌}
use co_wq.WorkQueue.{
  WorkQueue, post, post_batch, get_work_node, list_add_tail, insert_between, list_del,
  unlink_between, init_list_head, list_empty,
}
use co_wq.WorkQueue.Chain.{IsList}
use co_wq.WorkQueue.Splice.{Posted, post_batch-Posted}
use co_wq.WorkQueue.Fifo.{Holds, Taken, post-Holds, get_work_node-Taken}

-- Every list of the memory is empty.
abbrev empty_queue : WorkQueue
empty_queue = record { head = 0; links = record { next = λ a. a; prev = λ a. a }; trigs = 0 }

empty_queue-Holds : Holds empty_queue []
empty_queue-Holds = record { chain = (refl, refl); distinct = (tt, tt) }

abbrev one_posted : WorkQueue
one_posted = post 1 empty_queue

one_posted-Holds : Holds one_posted (1 ∷ [])
one_posted-Holds =
    (post-Holds empty_queue [] 1 empty_queue-Holds (record { next = refl; prev = refl })
      (refl, tt)).0

abbrev two_posted : WorkQueue
two_posted = post 2 one_posted

two_posted-Holds : Holds two_posted (1 ∷ 2 ∷ [])
unfolding post list_add_tail insert_between list_del unlink_between init_list_head
two_posted-Holds =
    (post-Holds one_posted (1 ∷ []) 2 one_posted-Holds (record { next = refl; prev = refl })
      (refl, (refl, tt))).0

first_taken : (get_work_node two_posted).0 ≡ some 1
unfolding get_work_node list_empty post list_add_tail insert_between list_del unlink_between
    init_list_head
first_taken = refl

get_work_node-Taken_example : Taken (1 ∷ 2 ∷ []) two_posted (get_work_node two_posted)
get_work_node-Taken_example = get_work_node-Taken two_posted (1 ∷ 2 ∷ []) two_posted-Holds

abbrev with_batch : WorkQueue
with_batch = record two_posted { links = list_add_tail 4 5 (list_add_tail 3 5 (two_posted.links)) }

with_batch-Holds : Holds with_batch (1 ∷ 2 ∷ [])
unfolding post list_add_tail insert_between list_del unlink_between init_list_head
with_batch-Holds = record {
  chain = ((refl, refl), ((refl, refl), (refl, refl)));
  distinct = ((refl, (refl, tt)), ((refl, tt), (tt, tt)));
}

batch-IsList : IsList with_batch.links 5 (3 ∷ 4 ∷ [])
unfolding post list_add_tail insert_between list_del unlink_between init_list_head
batch-IsList = record {
  chain = ((refl, refl), ((refl, refl), (refl, refl)));
  distinct = ((refl, (refl, tt)), ((refl, tt), (tt, tt)));
}

post_batch-Posted_example : Posted 5 (1 ∷ 2 ∷ []) (3 ∷ 4 ∷ []) with_batch (post_batch 5 with_batch)
unfolding post
post_batch-Posted_example =
    post_batch-Posted with_batch 5 (1 ∷ 2 ∷ []) (3 ∷ 4 ∷ []) with_batch-Holds batch-IsList
      ((refl, (refl, (refl, tt))), ((refl, (refl, (refl, tt))), ((refl, (refl, (refl, tt))), tt)))
