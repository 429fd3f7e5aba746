-- ===== src/Timer/Expiry.antt =====
-- `tim_chk_cb` takes off exactly the timers that are due, in the order of their expiry.
use co_wq.Prelude.{
  ℕ, zero, suc, ◌+◌, ◌≤◌, ◌≡◌, refl, sym, ap, subst, ◌∙◌, inl, inr, Bool, true, false, List, [],
  ◌∷◌, ◌++◌, append-nil, append_assoc, leb, ◌==◌, if◌then◌else◌, Bool-cases, arith,
}
use co_wq.Timer.{
  Heap, nil, node, two_pass_merge, delete_min, size, pop_expired, TimerQueue, hand_over, tim_chk_cb,
  any_func, set_owned,
}
use co_wq.Timer.Merging.{
  Ordered, IsRoot, count, count-nil, count-node, size-count, Ordered-mono, two_pass_merge-Merged,
}

abbrev pub count_list : (ℕ → ℕ → Bool) → List (ℕ × ℕ) → ℕ
count_list test [] = 0
count_list test ((x, e) ∷ xs) = (if test x e then 1 else 0) + count_list test xs

-- The expiries rise from `low` on, and none is later than `now`.
abbrev pub Rising : (low now : ℕ) → List (ℕ × ℕ) → Type 0
Rising low now [] = Unit {0}
Rising low now ((x, e) ∷ xs) = (low ≤ e) × (e ≤ now) × Rising e now xs

-- What a run of the loop did to `h`: it took off `popped`, in the order of expiry, and left `rest`,
-- in which nothing is due.
pub record Popped (low now : ℕ) (h : Heap) (popped : List (ℕ × ℕ)) (rest : Heap) : Type 0 where
  pub rising : Rising low now popped
  pub root : IsRoot rest
  pub later : Ordered (now + 1) rest
  pub nodes : (test : ℕ → ℕ → Bool) → count_list test popped + count test rest ≡ count test h

pop_expired-Popped :
    (fuel low now : ℕ) (h : Heap)
    → size h ≤ fuel
    → IsRoot h
    → Ordered low h
    → Popped low now h (pop_expired fuel now h).0 (pop_expired fuel now h).1
unfolding pop_expired size delete_min
pop_expired-Popped zero low now nil f r o = record {
  rising = tt;
  root = tt;
  later = tt;
  nodes = λ test. omega arith;
}
pop_expired-Popped zero low now (node x e c s) f r o = absurd (omega arith)
pop_expired-Popped (suc fuel) low now nil f r o = record {
  rising = tt;
  root = tt;
  later = tt;
  nodes = λ test. omega arith;
}
pop_expired-Popped (suc fuel) low now (node x e c (node _ _ _ _)) f r o = elim r [ ]
pop_expired-Popped (suc fuel) low now (node x e c nil) f r o = elim (Bool-cases (leb e now)) [
  | inl due ↦
      let m = two_pass_merge-Merged e c in
      let p =
        pop_expired-Popped fuel e now (two_pass_merge c)
          (omega (arith, size-count c, size-count (two_pass_merge c), m.same (λ x e. true))) m.root
          (m.ordered o.1) in
      rw due (record {
        rising = (o.0, ground arith, p.rising);
        root = p.root;
        later = p.later;
        nodes = λ test.
            omega (arith, p.nodes test, m.same test, count-node test x e c nil, count-nil test);
      })
  | inr waits ↦ rw waits (record {
    rising = tt;
    root = tt;
    later = (ground arith, o.1, tt);
    nodes = λ test. omega arith;
  })
]

-- The nodes among those taken off that have a callback.
abbrev pub runnable : (ℕ → Bool) → List (ℕ × ℕ) → List ℕ
runnable f [] = []
runnable f ((x, e) ∷ xs) = if f x then x ∷ runnable f xs else runnable f xs

abbrev pub named : ℕ → ℕ → ℕ → Bool
named i x e = x == i

record HandedOver (xs : List (ℕ × ℕ)) (q q' : TimerQueue) : Type 0 where
  heap : q'.heap_root ≡ q.heap_root
  funcs : q'.has_func ≡ q.has_func
  queued : q'.queue ≡ q.queue ++ runnable q.has_func xs
  released : (i : ℕ) → q'.owned i ≡ (if leb 1 (count_list (named i) xs) then false else q.owned i)

hand_over-HandedOver : (xs : List (ℕ × ℕ)) (q : TimerQueue) → HandedOver xs q (hand_over xs q)
unfolding hand_over
hand_over-HandedOver [] q = record {
  heap = refl;
  funcs = refl;
  queued = sym (append-nil q.queue);
  released = λ i. refl;
}
hand_over-HandedOver ((x, e) ∷ xs) q =
    let q1 = record q {
      owned = set_owned x false q.owned;
      queue = if q.has_func x then q.queue ++ x ∷ [] else q.queue;
    } in
    let h = hand_over-HandedOver xs q1 in
    record {
      heap = h.heap;
      funcs = h.funcs;
      queued = h.queued ∙ ground (arith, append_assoc q.queue (x ∷ []) (runnable q.has_func xs));
      released = λ i. h.released i ∙ ground arith;
    }

-- One ordered tree, and a node in it once exactly where this queue is its owner.
pub record IsValid (q : TimerQueue) : Type 0 where
  pub root : IsRoot q.heap_root
  pub ordered : Ordered 0 q.heap_root
  pub owners : (i : ℕ) → count (named i) q.heap_root ≡ (if q.owned i then 1 else 0)

-- What `tim_chk_cb` did at the time `now`.
pub record Fired (now : ℕ) (q q' : TimerQueue) : Type 0 where
  pub popped : List (ℕ × ℕ)
  pub rising : Rising 0 now popped
  pub queued : q'.queue ≡ q.queue ++ runnable q.has_func popped
  pub later : Ordered (now + 1) q'.heap_root
  pub nodes :
      (test : ℕ → ℕ → Bool)
      → count_list test popped + count test q'.heap_root ≡ count test q.heap_root
  pub valid : IsValid q'

HandedOver-Fired :
    (now : ℕ) (q : TimerQueue) (popped : List (ℕ × ℕ)) (rest : Heap) (q1 : TimerQueue) (trigs : ℕ)
    → IsValid q
    → Popped 0 now q.heap_root popped rest
    → HandedOver popped (record q { heap_root = rest }) q1
    → Fired now q (record q1 { trigs = trigs })
HandedOver-Fired now q popped rest q1 trigs v p h = record {
  popped = popped;
  rising = p.rising;
  queued = h.queued;
  later = subst (Ordered (now + 1)) (sym h.heap) p.later;
  nodes = λ test. omega (arith, p.nodes test, ap (count test) h.heap);
  valid = record {
    root = subst IsRoot (sym h.heap) p.root;
    ordered = subst (Ordered 0) (sym h.heap) (Ordered-mono 0 (now + 1) rest (omega arith) p.later);
    owners = λ i.
        ground (arith, p.nodes (named i), ap (count (named i)) h.heap, h.released i, v.owners i);
  };
}

-- A check at the time `now` takes off exactly the timers that expire by then, and hands those with a
-- callback to the executor in the order of their expiry. What stays in the heap expires later, and
-- no timer is lost, doubled or changed: a node that was in the heap is taken off or stays, as often.
-- The heap stays ordered, and a node's owner is this queue exactly while it is in the heap.
pub tim_chk_cb-Fired : (now : ℕ) (q : TimerQueue) → IsValid q → Fired now q (tim_chk_cb now q)
unfolding tim_chk_cb
tim_chk_cb-Fired now q v =
    let r = pop_expired (size q.heap_root) now q.heap_root in
    let p =
      pop_expired-Popped (size q.heap_root) 0 now q.heap_root (omega arith) v.root v.ordered in
    let q1 = hand_over r.0 (record q { heap_root = r.1 }) in
    let h = hand_over-HandedOver r.0 (record q { heap_root = r.1 }) in
    elim (Bool-cases (any_func q.has_func r.0)) [
      | inl any ↦ rw any (HandedOver-Fired now q r.0 r.1 q1 (suc q1.trigs) v p h)
      | inr none ↦ rw none (HandedOver-Fired now q r.0 r.1 q1 q1.trigs v p h)
    ]
