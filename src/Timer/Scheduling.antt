-- ===== src/Timer/Scheduling.antt =====
-- `post_delayed_work` and `cancel` keep the heap valid, and change one timer.
use co_wq.Prelude.{
  ℕ, ◌+◌, ◌≡◌, refl, inl, inr, Bool, true, false, if◌then◌else◌, Bool-cases, arith, some,
  Option-cases,
}
use co_wq.Timer.{
  Heap, nil, node, two_pass_merge, delete_min, detach, reattach, is_root, TimerQueue,
  post_delayed_work, cancel, set_owned,
}
use co_wq.Timer.Merging.{
  Ordered, IsRoot, count, count-nil, count-node, count-heap_meld, heap_meld-IsRoot,
  heap_meld-Ordered, two_pass_merge-Merged, Ordered-mono,
}
use co_wq.Timer.Expiry.{named, IsValid}
use co_wq.Timer.Membership.{detach-Detached, detach-none, detach-IsRoot, reattach-Merged}

-- `h'` is `h` without one node `id`.
record Removed (id : ℕ) (h h' : Heap) : Type 0 where
  expire : ℕ
  pub nodes :
      (test : ℕ → ℕ → Bool) → (if test id expire then 1 else 0) + count test h' ≡ count test h
  root : IsRoot h'
  ordered : Ordered 0 h → Ordered 0 h'

delete_min-Removed :
    (id : ℕ) (h : Heap) → IsRoot h → is_root id h ≡ true → Removed id h (delete_min h)
unfolding delete_min
delete_min-Removed id nil r e = cc
delete_min-Removed id (node x a c (node _ _ _ _)) r e = elim r [ ]
delete_min-Removed id (node x a c nil) r e =
    let m = two_pass_merge-Merged a c in
    record {
      expire = a;
      nodes = λ test. ground (arith, m.same test, count-node test x a c nil, count-nil test);
      root = m.root;
      ordered = λ o. Ordered-mono 0 a (two_pass_merge c) (omega arith) (m.ordered o.1);
    }

reattach-Removed :
    (id : ℕ) (h d left : Heap)
    → IsRoot h
    → is_root id h ≡ false
    → detach id h ≡ some (d, left)
    → Removed id h (reattach d left)
reattach-Removed id h d left r n e =
    let p = detach-Detached id 0 h e in
    let m = reattach-Merged 0 d left (detach-IsRoot id h d left r n e) in
    record {
      expire = p.expire;
      nodes = λ test. omega (arith, p.nodes test, m.1 test);
      root = m.0;
      ordered = λ o. m.2 (p.child o) (p.rest o);
    }

-- What `cancel` did of the node `id`: this queue is no longer its owner, every other node is in the
-- heap as before, and the queue is still valid.
pub record Cancelled (id : ℕ) (q q' : TimerQueue) : Type 0 where
  pub valid : IsValid q'
  released : q'.owned id ≡ false
  gone : count (named id) q'.heap_root ≡ 0
  others :
      (test : ℕ → ℕ → Bool)
      → ((e : ℕ) → test id e ≡ false)
      → count test q'.heap_root ≡ count test q.heap_root

Removed-Cancelled :
    (id : ℕ) (q : TimerQueue) (h' : Heap)
    → IsValid q
    → Removed id q.heap_root h'
    → Cancelled id q (record q { heap_root = h'; owned = set_owned id false q.owned })
Removed-Cancelled id q h' v r =
    let own : (i : ℕ) → count (named i) h' ≡ (if set_owned id false q.owned i then 1 else 0) =
      λ i. ground (arith, r.nodes (named i), v.owners i) in
    let free : set_owned id false q.owned id ≡ false = ground arith in
    record {
      valid = record { root = r.root; ordered = r.ordered v.ordered; owners = own };
      released = free;
      gone = ground (arith, own id, free);
      others = λ test out. ground (arith, r.nodes test, out r.expire);
    }

-- Cancelling a timer of this queue takes exactly its node out of the heap, wherever it stands there,
-- and leaves the nodes below it in the heap. A timer that this queue does not own is left alone.
pub cancel-Cancelled : (id : ℕ) (q : TimerQueue) → IsValid q → Cancelled id q (cancel id q)
unfolding cancel
cancel-Cancelled id q v = elim (Bool-cases (q.owned id)) [
  | inr foreign ↦ rw foreign (record {
    valid = v;
    released = foreign;
    gone = ground (arith, v.owners id, foreign);
    others = λ test out. refl;
  })
  | inl ours ↦ elim (Bool-cases (is_root id q.heap_root)) [
    | inl top ↦
        rw (ours, top)
          (Removed-Cancelled id q (delete_min q.heap_root) v
            (delete_min-Removed id q.heap_root v.root top))
    | inr below ↦ elim (Option-cases (detach id q.heap_root)) [
      | inr ((d, left), e) ↦
          rw (ours, below, e)
            (Removed-Cancelled id q (reattach d left) v
              (reattach-Removed id q.heap_root d left v.root below e))
      | inl e ↦ absurd (ground (arith, detach-none id q.heap_root e, v.owners id, ours))
    ]
  ]
]

-- What posting the node `id` did: it is in the heap once, with its time, and every other node as before.
pub record Posted (id expire : ℕ) (q q' : TimerQueue) : Type 0 where
  pub valid : IsValid q'
  pub nodes :
      (test : ℕ → ℕ → Bool)
      → count test q'.heap_root ≡ (if test id expire then 1 else 0) + count test q.heap_root

-- Posting a timer that is in no queue puts it into the heap once, due `ms` from now. The other timers
-- stay as they were, and the queue stays valid.
pub post_delayed_work-Posted :
    (now id ms : ℕ) (q : TimerQueue)
    → IsValid q
    → q.owned id ≡ false
    → Posted id (now + ms) q (post_delayed_work now id ms q)
unfolding post_delayed_work
post_delayed_work-Posted now id ms q v e =
    let new = node id (now + ms) nil nil in
    let nodes = λ (test : ℕ → ℕ → Bool). count-heap_meld test q.heap_root new v.root tt in
    record {
      valid = record {
        root = heap_meld-IsRoot q.heap_root new v.root tt;
        ordered = heap_meld-Ordered 0 q.heap_root new v.ordered (omega arith, tt, tt);
        owners = λ i. ground (
          arith,
          nodes (named i),
          v.owners i,
          e,
          count-node (named i) id (now + ms) nil nil,
          count-nil (named i),
        );
      };
      nodes =
          λ test. omega (arith, nodes test, count-node test id (now + ms) nil nil, count-nil test);
    }
