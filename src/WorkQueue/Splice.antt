-- ===== src/WorkQueue/Splice.antt =====
-- Posting a batch: what splicing does to two lists in the same memory.
use co_wq.Prelude.{
  ℕ, suc, ◌≡◌, refl, sym, subst, ◌∙◌, true, false, List, [], ◌∷◌, ◌++◌, ◌==◌, arith,
}
use co_wq.WorkQueue.{Links, WorkQueue, splice_tail, post_batch, list_empty}
use co_wq.WorkQueue.Chain.{Chain, Absent, AllDistinct, Chain-last, IsList}
use co_wq.WorkQueue.Fifo.{Holds, if_true, if_false}

-- No node of the first list is in the second.
abbrev pub Disjoint : List ℕ → List ℕ → Type 0
Disjoint [] ys = Unit {0}
Disjoint (x ∷ xs) ys = Absent x ys × Disjoint xs ys

Disjoint-head : (xs : List ℕ) (y : ℕ) (ys : List ℕ) → Disjoint xs (y ∷ ys) → Absent y xs
Disjoint-head [] y ys d = tt
Disjoint-head (x ∷ xs) y ys d = (ground (arith, d.0.0), Disjoint-head xs y ys d.1)

Disjoint-tail : (xs : List ℕ) (y : ℕ) (ys : List ℕ) → Disjoint xs (y ∷ ys) → Disjoint xs ys
Disjoint-tail [] y ys d = tt
Disjoint-tail (x ∷ xs) y ys d = (d.0.1, Disjoint-tail xs y ys d.1)

Disjoint-sym : (xs ys : List ℕ) → Disjoint xs ys → Disjoint ys xs
Disjoint-sym xs [] d = tt
Disjoint-sym xs (y ∷ ys) d = (Disjoint-head xs y ys d, Disjoint-sym xs ys (Disjoint-tail xs y ys d))

Absent-join : (a : ℕ) (xs ys : List ℕ) → Absent a xs → Absent a ys → Absent a (xs ++ ys)
Absent-join a [] ys k m = m
Absent-join a (x ∷ xs) ys k m = (k.0, Absent-join a xs ys k.1 m)

AllDistinct-join :
    (xs ys : List ℕ) → AllDistinct xs → AllDistinct ys → Disjoint xs ys → AllDistinct (xs ++ ys)
AllDistinct-join [] ys d e k = e
AllDistinct-join (x ∷ xs) ys d e k = (Absent-join x xs ys d.0 k.0, AllDistinct-join xs ys d.1 e k.1)

-- The last node of a chain is in no list that its nodes are not in.
Chain-last-Absent :
    (l : Links) (p : ℕ) (xs : List ℕ) (q : ℕ) (zs : List ℕ)
    → Chain l p xs q
    → Disjoint (p ∷ xs) zs
    → Absent (l.prev q) zs
Chain-last-Absent l p [] q zs c d = subst (λ a. Absent a zs) (sym c.1) d.0
Chain-last-Absent l p (x ∷ xs) q zs c d = Chain-last-Absent l x xs q zs c.1 d.1

module _ (b h : ℕ) (l : Links) where
  -- The links that stay.
  next_other :
      (p : ℕ)
      → (b == p) ≡ false
      → (l.prev b == p) ≡ false
      → (l.prev h == p) ≡ false
      → (l.next b == h) ≡ false
      → (splice_tail b h l).next p ≡ l.next p
  unfolding splice_tail
  next_other p x y z w = ground (arith, x, y, z, w)

  prev_other :
      (p : ℕ)
      → (b == p) ≡ false
      → (h == p) ≡ false
      → (l.next b == p) ≡ false
      → (splice_tail b h l).prev p ≡ l.prev p
  unfolding splice_tail
  prev_other p x y z = ground (arith, x, y, z)

  -- The first list up to its last node, followed by a chain from there.
  join-Chain :
      (p : ℕ) (xs zs : List ℕ)
      → Chain l p xs h
      → AllDistinct (p ∷ xs)
      → Absent b (p ∷ xs)
      → Absent (l.prev b) (p ∷ xs)
      → Absent (l.next b) xs
      → Absent h xs
      → (l.next b == h) ≡ false
      → Chain (splice_tail b h l) (l.prev h) zs h
      → Chain (splice_tail b h l) p (xs ++ zs) h
  join-Chain p [] zs c d x y z w e k = subst (λ a. Chain (splice_tail b h l) a zs h) (c.1) k
  join-Chain p (n ∷ xs) zs c d x y z w e k =
      let last = Chain-last l n xs h p c.1 d.0.0 d.0.1 in
      (
        (
          next_other p (ground (arith, x.0)) (ground (arith, y.0)) last e ∙ c.0.0,
          prev_other n (ground (arith, x.1.0)) (ground (arith, w.0)) (ground (arith, z.0)) ∙ c.0.1,
        ),
        join-Chain n xs zs c.1 d.1 x.1 y.1 z.1 w.1 e k,
      )

  -- The batch behind its first node, which now ends at the queue's head.
  retarget-Chain :
      (p : ℕ) (ys : List ℕ)
      → Chain l p ys b
      → AllDistinct (p ∷ ys)
      → Absent b (p ∷ ys)
      → Absent (l.prev h) (p ∷ ys)
      → Absent (l.next b) ys
      → Absent h ys
      → (l.next b == h) ≡ false
      → (b == h) ≡ false
      → Chain (splice_tail b h l) p ys h
  unfolding splice_tail
  retarget-Chain p [] c d x y z w e f =
      (ground (arith, c.1, x.0, e, f), ground (arith, c.1, x.0, e, f))
  retarget-Chain p (n ∷ ys) c d x y z w e f =
      let last = Chain-last l n ys b p c.1 d.0.0 d.0.1 in
      (
        (
          next_other p (ground (arith, x.0)) last (ground (arith, y.0)) e ∙ c.0.0,
          prev_other n (ground (arith, x.1.0)) (ground (arith, w.0)) (ground (arith, z.0)) ∙ c.0.1,
        ),
        retarget-Chain n ys c.1 d.1 x.1 y.1 z.1 w.1 e f,
      )

  -- Across the seam.
  seam :
      (y : ℕ)
      → l.next b ≡ y
      → (b == l.prev h) ≡ false
      → (l.prev b == l.prev h) ≡ false
      → (y == h) ≡ false
      → (b == y) ≡ false
      → ((splice_tail b h l).next (l.prev h) ≡ y) × ((splice_tail b h l).prev y ≡ l.prev h)
  unfolding splice_tail
  seam y e x z w u = (ground (arith, e, x, z, w, u), ground (arith, e, x, z, w, u))

  emptied : ((splice_tail b h l).next b ≡ b) × ((splice_tail b h l).prev b ≡ b)
  unfolding splice_tail
  emptied = (ground arith, ground arith)

  splice_tail-IsList :
      (xs : List ℕ) (y : ℕ) (ys : List ℕ)
      → IsList l h xs
      → IsList l b (y ∷ ys)
      → Disjoint (h ∷ xs) (b ∷ y ∷ ys)
      → IsList (splice_tail b h l) h (xs ++ y ∷ ys) × IsList (splice_tail b h l) b []
  splice_tail-IsList xs y ys v u d =
      let first = u.chain.0.0 in
      let back = Disjoint-sym (h ∷ xs) (b ∷ y ∷ ys) d in
      let b_out : Absent b (h ∷ xs) = back.0 in
      let y_out : Absent y (h ∷ xs) = back.1.0 in
      let last_out = Chain-last-Absent l b (y ∷ ys) b (h ∷ xs) u.chain back in
      let end_out = Chain-last-Absent l h xs h (b ∷ y ∷ ys) v.chain d in
      let apart = d.0 in
      let y_h : (y == h) ≡ false = apart.1.0 in
      let f_h : (l.next b == h) ≡ false = ground (arith, first, y_h) in
      let last_end : (l.prev b == l.prev h) ≡ false =
        (let other = Chain-last l h xs h (l.prev b) v.chain last_out.0 last_out.1 in
          ground (arith, other)) in
      (
        record {
          chain =
              join-Chain h xs (y ∷ ys) v.chain v.distinct b_out last_out
                (subst (λ f. Absent f xs) (sym first) y_out.1) v.distinct.0 f_h
                (
                  seam y first (ground (arith, end_out.0)) last_end y_h
                      (ground (arith, u.distinct.0.0)),
                  retarget-Chain y ys u.chain.1 u.distinct.1 u.distinct.0 end_out.1
                      (subst (λ f. Absent f ys) (sym first) u.distinct.1.0) apart.1.1 f_h
                      (ground (arith, apart.0)),
                );
          distinct =
              AllDistinct-join (h ∷ xs) (y ∷ ys) v.distinct u.distinct.1
                (Disjoint-tail (h ∷ xs) b (y ∷ ys) d);
        },
        record { chain = emptied; distinct = (tt, tt) },
      )

-- What posting a batch does to a queue of `xs`: nothing for no nodes, and else the nodes are behind those of the
-- queue, the list of the batch is empty, and the executor was woken once.
abbrev pub Posted : (batch_head : ℕ) → List ℕ → List ℕ → WorkQueue → WorkQueue → Type 0
Posted batch_head xs [] q q' = q' ≡ q
Posted batch_head xs (y ∷ ys) q q' =
    Holds q' (xs ++ y ∷ ys) × IsList q'.links batch_head [] × (q'.trigs ≡ suc q.trigs)

-- Posting a list of nodes of which none is in the queue puts them behind the nodes of the queue, all in their order,
-- empties the list, and wakes the executor once; an empty list leaves everything as it is.
pub post_batch-Posted :
    (q : WorkQueue) (batch_head : ℕ) (xs ys : List ℕ)
    → Holds q xs
    → IsList q.links batch_head ys
    → Disjoint (q.head ∷ xs) (batch_head ∷ ys)
    → Posted batch_head xs ys q (post_batch batch_head q)
unfolding post_batch list_empty
post_batch-Posted q b xs [] v u d =
    let empty : (q.links.next b == b) ≡ true = ground (arith, u.chain.0) in if_true _ _ _ empty
post_batch-Posted q b xs (y ∷ ys) v u d =
    let filled : (q.links.next b == b) ≡ false = ground (arith, u.chain.0.0, u.distinct.0.0) in
    let posted = splice_tail-IsList b q.head q.links xs y ys v u d in
    subst (Posted b xs (y ∷ ys) q) (sym (if_false _ _ _ filled)) (posted.0, posted.1, refl)
