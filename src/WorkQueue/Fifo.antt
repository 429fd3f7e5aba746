-- ===== src/WorkQueue/Fifo.antt =====
-- The run queue is a queue: nodes are posted at its end, and taken from its front.
use co_wq.Prelude.{
  ℕ, suc, ◌≡◌, refl, sym, ap, subst, ◌∙◌, Bool, true, false, Option, none, some, List, [], ◌∷◌,
  ◌++◌, ◌==◌, if◌then◌else◌, arith,
}
use co_wq.WorkQueue.{WorkQueue, list_empty, list_del, post, get_work_node}
use co_wq.WorkQueue.Chain.{
  Absent, IsList, IsAlone, list_add_tail-IsList, list_del-alone, list_del-first, list_del-IsAlone,
}

-- The memory of `q` represents the queue `xs`.
abbrev pub Holds : WorkQueue → List ℕ → Type 0
Holds q xs = IsList q.links q.head xs

-- Posting a node that is in no list puts it behind the nodes of the queue, which keep their order, and
-- wakes the executor once.
pub post-Holds :
    (q : WorkQueue) (xs : List ℕ) (pnode : ℕ)
    → Holds q xs
    → IsAlone q.links pnode
    → Absent pnode (q.head ∷ xs)
    → Holds (post pnode q) (xs ++ pnode ∷ []) × ((post pnode q).trigs ≡ suc q.trigs)
unfolding post
post-Holds q xs pnode v a k = (
  list_add_tail-IsList (list_del pnode q.links) q.head xs pnode
      (list_del-alone q.links q.head xs pnode v a k) k,
  refl,
)

pub if_true : {A : Type 0} (b : Bool) (x y : A) → b ≡ true → (if b then x else y) ≡ x
if_true true x y e = refl
if_true false x y e = cc

pub if_false : {A : Type 0} (b : Bool) (x y : A) → b ≡ false → (if b then x else y) ≡ y
if_false true x y e = cc
if_false false x y e = refl

-- What `get_work_node` does of each queue.
abbrev pub Taken : List ℕ → WorkQueue → Option ℕ × WorkQueue → Type 0
Taken [] q (node, q') = (node ≡ none) × (q' ≡ q)
Taken (x ∷ xs) q (node, q') = (node ≡ some x) × (Holds q' xs × IsAlone q'.links x)

-- Taking a node from a queue takes the one that has waited longest, and leaves the others in their
-- order. The node taken is in no list, so that it can be posted again. An empty queue gives none and
-- stays as it is.
pub get_work_node-Taken : (q : WorkQueue) (xs : List ℕ) → Holds q xs → Taken xs q (get_work_node q)
unfolding get_work_node list_empty
get_work_node-Taken q [] v =
    let empty : (q.links.next q.head == q.head) ≡ true = ground (arith, v.chain.0) in
    subst (Taken [] q) (sym (if_true _ _ _ empty)) (refl, refl)
get_work_node-Taken q (x ∷ xs) v =
    let filled : (q.links.next q.head == q.head) ≡ false =
      ground (arith, v.chain.0, v.distinct.0.0) in
    let taken : ℕ → Option ℕ × WorkQueue = λ y. (some y, record q { links = list_del y q.links }) in
    subst (Taken (x ∷ xs) q) (sym (if_false _ _ _ filled ∙ ap taken v.chain.0.0))
      (refl, (list_del-first q.links q.head x xs v, list_del-IsAlone q.links x))
