-- ===== src/Timer/Membership.antt =====
-- What `detach` and `reattach` do to the heap.
use co_wq.Prelude.{
  ℕ, ◌+◌, ◌≡◌, refl, sym, ◌∙◌, inl, inr, Bool, true, false, ◌==◌, if◌then◌else◌, Bool-cases, arith,
  some, none, Option-cases,
}
use co_wq.Timer.{Heap, nil, node, detach, reattach, is_root}
use co_wq.Timer.Merging.{
  Ordered, IsRoot, count, count-nil, count-node, count-heap_meld, heap_meld-IsRoot,
  heap_meld-Ordered, two_pass_merge-Merged, Ordered-mono,
}
use co_wq.Timer.Expiry.{named}

-- What `detach` found of the node `id`.
pub record Detached (id low : ℕ) (h d left : Heap) : Type 0 where
  pub expire : ℕ
  pub nodes :
      (test : ℕ → ℕ → Bool)
      → (if test id expire then 1 else 0) + (count test d + count test left) ≡ count test h
  pub child : Ordered low h → Ordered low d
  pub rest : Ordered low h → Ordered low left

-- The results of `detach`, by where the node is.
module _ (id x a : ℕ) (c s : Heap) where
  detach_here : (x == id) ≡ true → detach id (node x a c s) ≡ some (c, s)
  unfolding detach
  detach_here e = rw e

  detach_below :
      {d left : Heap}
      → (x == id) ≡ false
      → detach id c ≡ some (d, left)
      → detach id (node x a c s) ≡ some (d, node x a left s)
  unfolding detach
  detach_below e f = rw (e, f)

  detach_beside :
      {d left : Heap}
      → (x == id) ≡ false
      → detach id c ≡ none
      → detach id s ≡ some (d, left)
      → detach id (node x a c s) ≡ some (d, node x a c left)
  unfolding detach
  detach_beside e f g = rw (e, f, g)

  detach_nowhere :
      (x == id) ≡ false → detach id c ≡ none → detach id s ≡ none → detach id (node x a c s) ≡ none
  unfolding detach
  detach_nowhere e f g = rw (e, f, g)

pub detach-Detached :
    (id low : ℕ) (h : Heap) {d left : Heap}
    → detach id h ≡ some (d, left)
    → Detached id low h d left
unfolding detach
detach-Detached id low nil e = cc
detach-Detached id low (node x a c s) {d} {left} e = elim (Bool-cases (x == id)) [
  | inl hit ↦
      let same : some (c, s) ≡ some (d, left) = sym (detach_here id x a c s hit) ∙ e in
      let p : d ≡ c = cc same in
      let q : left ≡ s = cc same in
      rw (p, q)
        (record {
          expire = a;
          nodes = λ test. ground (arith, count-node test x a c s);
          child = λ o. Ordered-mono low a c o.0 o.1;
          rest = λ o. o.2;
        })
  | inr miss ↦ elim (Option-cases (detach id c)) [
    | inr ((d1, c1), f) ↦
        let same : some (d1, node x a c1 s) ≡ some (d, left) =
          sym (detach_below id x a c s miss f) ∙ e in
        let p : d ≡ d1 = cc same in
        let q : left ≡ node x a c1 s = cc same in
        let r = detach-Detached id a c f in
        rw (p, q)
          (record {
            expire = r.expire;
            nodes = λ test.
                omega (arith, r.nodes test, count-node test x a c s, count-node test x a c1 s);
            child = λ o. Ordered-mono low a d1 o.0 (r.child o.1);
            rest = λ o. (o.0, r.rest o.1, o.2);
          })
    | inl f ↦ elim (Option-cases (detach id s)) [
      | inr ((d1, s1), g) ↦
          let same : some (d1, node x a c s1) ≡ some (d, left) =
            sym (detach_beside id x a c s miss f g) ∙ e in
          let p : d ≡ d1 = cc same in
          let q : left ≡ node x a c s1 = cc same in
          let r = detach-Detached id low s g in
          rw (p, q)
            (record {
              expire = r.expire;
              nodes = λ test.
                  omega (arith, r.nodes test, count-node test x a c s, count-node test x a c s1);
              child = λ o. r.child o.2;
              rest = λ o. (o.0, o.1, r.rest o.2);
            })
      | inl g ↦ cc (sym (detach_nowhere id x a c s miss f g) ∙ e)
    ]
  ]
]

pub detach-none : (id : ℕ) (h : Heap) → detach id h ≡ none → count (named id) h ≡ 0
unfolding detach
detach-none id nil e = count-nil (named id)
detach-none id (node x a c s) e =
    ground (arith, count-node (named id) x a c s, detach-none id c, detach-none id s)

-- A tree stays one tree without a node below its root.
pub detach-IsRoot :
    (id : ℕ) (h d left : Heap)
    → IsRoot h
    → is_root id h ≡ false
    → detach id h ≡ some (d, left)
    → IsRoot left
unfolding detach
detach-IsRoot id nil d left r n e = cc
detach-IsRoot id (node x a c (node _ _ _ _)) d left r n e = elim r [ ]
detach-IsRoot id (node x a c nil) d left r n e = elim (Option-cases (detach id c)) [
  | inr ((d1, c1), f) ↦
      let same : some (d1, node x a c1 nil) ≡ some (d, left) =
        sym (detach_below id x a c nil n f) ∙ e in
      let q : left ≡ node x a c1 nil = cc same in rw q tt
  | inl f ↦ cc (sym (detach_nowhere id x a c nil n f refl) ∙ e)
]

-- The node's children, melded back into the heap.
pub reattach-Merged :
    (low : ℕ) (d left : Heap)
    → IsRoot left
    → IsRoot (reattach d left)
      × ((test : ℕ → ℕ → Bool) → count test (reattach d left) ≡ count test d + count test left)
      × (Ordered low d → Ordered low left → Ordered low (reattach d left))
reattach-Merged low nil left r = (r, (λ test. omega (arith, count-nil test)), λ o p. p)
reattach-Merged low (node x e c s) left r =
    let m = two_pass_merge-Merged low (node x e c s) in
    (
      heap_meld-IsRoot left _ r m.root,
      (λ test. omega (arith, count-heap_meld test left _ r m.root, m.same test)),
      λ o p. heap_meld-Ordered low left _ p (m.ordered o),
    )
