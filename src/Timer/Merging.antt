-- ===== src/Timer/Merging.antt =====
-- The pairing heap keeps its nodes and its order.
use co_wq.Prelude.{ℕ, ◌+◌, ◌≤◌, ◌≡◌, refl, Bool, true, if◌then◌else◌, arith}
use co_wq.Timer.{Heap, nil, node, heap_meld, two_pass_merge, size}

-- No node of the heap expires before `low`, and none before its parent.
abbrev pub Ordered : ℕ → Heap → Type 0
Ordered low nil = Unit {0}
Ordered low (node x e c s) = (low ≤ e) × Ordered e c × Ordered low s

-- A tree of its own: its root has no sibling.
abbrev pub IsRoot : Heap → Type 0
IsRoot nil = Unit {0}
IsRoot (node x e c nil) = Unit {0}
IsRoot (node x e c (node y f d s)) = ⊥

-- How many nodes of the heap, by their names and expiries, satisfy a test.
pub count : (ℕ → ℕ → Bool) → Heap → ℕ
count test nil = 0
count test (node x e c s) = (if test x e then 1 else 0) + (count test c + count test s)

pub count-nil : (test : ℕ → ℕ → Bool) → count test nil ≡ 0
unfolding count
count-nil test = refl

pub count-node :
    (test : ℕ → ℕ → Bool) (x e : ℕ) (c s : Heap)
    → count test (node x e c s) ≡ (if test x e then 1 else 0) + (count test c + count test s)
unfolding count
count-node test x e c s = refl

pub size-count : (h : Heap) → size h ≡ count (λ x e. true) h
unfolding size count
size-count nil = refl
size-count (node x e c s) = omega (arith, size-count c, size-count s)

pub count-heap_meld :
    (test : ℕ → ℕ → Bool) (a b : Heap)
    → IsRoot a
    → IsRoot b
    → count test (heap_meld a b) ≡ count test a + count test b
unfolding heap_meld count
count-heap_meld test nil b p q = omega arith
count-heap_meld test (node x e c s) nil p q = omega arith
count-heap_meld test (node x e c nil) (node y f d nil) p q = ground arith
count-heap_meld test (node x e c nil) (node y f d (node _ _ _ _)) p q = elim q [ ]
count-heap_meld test (node x e c (node _ _ _ _)) (node y f d _) p q = elim p [ ]

pub heap_meld-IsRoot : (a b : Heap) → IsRoot a → IsRoot b → IsRoot (heap_meld a b)
unfolding heap_meld
heap_meld-IsRoot nil b p q = q
heap_meld-IsRoot (node x e c nil) nil p q = tt
heap_meld-IsRoot (node x e c nil) (node y f d nil) p q = ground arith
heap_meld-IsRoot (node x e c nil) (node y f d (node _ _ _ _)) p q = elim q [ ]
heap_meld-IsRoot (node x e c (node _ _ _ _)) b p q = elim p [ ]

pub heap_meld-Ordered :
    (low : ℕ) (a b : Heap) → Ordered low a → Ordered low b → Ordered low (heap_meld a b)
unfolding heap_meld
heap_meld-Ordered low nil b p q = q
heap_meld-Ordered low (node x e c s) nil p q = p
heap_meld-Ordered low (node x e c s) (node y f d t) p q = ground arith

-- `merged` is one tree with the nodes of `h`, and ordered if `h` was.
pub record Merged (low : ℕ) (h merged : Heap) : Type 0 where
  pub root : IsRoot merged
  pub same : (test : ℕ → ℕ → Bool) → count test merged ≡ count test h
  pub ordered : Ordered low h → Ordered low merged

pub two_pass_merge-Merged : (low : ℕ) (h : Heap) → Merged low h (two_pass_merge h)
unfolding two_pass_merge
two_pass_merge-Merged low nil = record { root = tt; same = λ test. refl; ordered = λ o. o }
two_pass_merge-Merged low (node x e c nil) = record {
  root = tt;
  same = λ test. refl;
  ordered = λ o. o;
}
two_pass_merge-Merged low (node x e c (node y f d rest)) =
    let m = two_pass_merge-Merged low rest in
    let a = node x e c nil in
    let b = node y f d nil in
    let ab = heap_meld-IsRoot a b tt tt in
    record {
      root = heap_meld-IsRoot (heap_meld a b) (two_pass_merge rest) ab m.root;
      same = λ test. omega (
        arith,
        count-heap_meld test (heap_meld a b) (two_pass_merge rest) ab m.root,
        count-heap_meld test a b tt tt,
        m.same test,
        count-node test x e c nil,
        count-node test y f d nil,
        count-node test y f d rest,
        count-node test x e c (node y f d rest),
        count-nil test,
      );
      ordered = λ o.
          heap_meld-Ordered low (heap_meld a b) (two_pass_merge rest)
            (heap_meld-Ordered low a b (o.0, o.1, tt) (o.2.0, o.2.1, tt)) (m.ordered o.2.2);
    }

pub Ordered-mono : (low high : ℕ) (h : Heap) → low ≤ high → Ordered high h → Ordered low h
Ordered-mono low high nil l o = tt
Ordered-mono low high (node x e c s) l o = (omega arith, o.1, Ordered-mono low high s l o.2)
