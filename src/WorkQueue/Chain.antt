-- ===== src/WorkQueue/Chain.antt =====
-- What the links of a list are, and what keeps them.
use co_wq.Prelude.{ℕ, ◌≡◌, sym, subst, ◌∙◌, false, List, [], ◌∷◌, ◌++◌, ◌==◌, arith}
use co_wq.WorkQueue.{Links, insert_between, list_add_tail, init_list_head, unlink_between, list_del}

-- From `p` over the nodes `xs` to `q`, in both directions.
abbrev pub Chain : Links → ℕ → List ℕ → ℕ → Type 0
Chain l p [] q = (l.next p ≡ q) × (l.prev q ≡ p)
Chain l p (x ∷ xs) q = ((l.next p ≡ x) × (l.prev x ≡ p)) × Chain l x xs q

abbrev pub Absent : ℕ → List ℕ → Type 0
Absent a [] = Unit {0}
Absent a (x ∷ xs) = ((x == a) ≡ false) × Absent a xs

abbrev pub AllDistinct : List ℕ → Type 0
AllDistinct [] = Unit {0}
AllDistinct (x ∷ xs) = Absent x xs × AllDistinct xs

-- `l` and `l'` hold the same links at the nodes `xs`.
abbrev pub Agree : Links → Links → List ℕ → Type 0
Agree l l' [] = Unit {0}
Agree l l' (x ∷ xs) = ((l'.next x ≡ l.next x) × (l'.prev x ≡ l.prev x)) × Agree l l' xs

-- A chain stays where its inner nodes keep their links, and its ends the links into it.
pub Chain-Agree :
    (l l' : Links) (p : ℕ) (xs : List ℕ) (q : ℕ)
    → Agree l l' xs
    → l'.next p ≡ l.next p
    → l'.prev q ≡ l.prev q
    → Chain l p xs q
    → Chain l' p xs q
Chain-Agree l l' p [] q a n b c = (n ∙ c.0, b ∙ c.1)
Chain-Agree l l' p (x ∷ xs) q a n b c =
    ((n ∙ c.0.0, a.0.1 ∙ c.0.1), Chain-Agree l l' x xs q a.1 a.0.0 b c.1)

-- The last node before the end is `p` or one of `xs`.
pub Chain-last :
    (l : Links) (p : ℕ) (xs : List ℕ) (q a : ℕ)
    → Chain l p xs q
    → (p == a) ≡ false
    → Absent a xs
    → (l.prev q == a) ≡ false
Chain-last l p [] q a c n k = ground (arith, c.1, n)
Chain-last l p (x ∷ xs) q a c n k = Chain-last l x xs q a c.1 k.0 k.1

-- A new node before the end of a chain.
pub Chain-insert :
    (l : Links) (n p : ℕ) (xs : List ℕ) (q : ℕ)
    → Chain l p xs q
    → AllDistinct (p ∷ xs)
    → Absent q xs
    → Absent n (p ∷ xs)
    → (q == n) ≡ false
    → Chain (insert_between n (l.prev q) q l) p (xs ++ n ∷ []) q
unfolding insert_between
Chain-insert l n p [] q c d m k e = ground (arith, c.0, c.1, k.0, e)
Chain-insert l n p (x ∷ xs) q c d m k e =
    let last = Chain-last l x xs q p c.1 d.0.0 d.0.1 in
    (
      (ground (arith, c.0.0, k.0, last), ground (arith, c.0.1, k.1.0, m.0)),
      Chain-insert l n x xs q c.1 d.1 m.1 k.1 e,
    )

-- The list with its head at `h` holds the nodes `xs`.
pub record IsList (l : Links) (h : ℕ) (xs : List ℕ) : Type 0 where
  pub chain : Chain l h xs h
  pub distinct : AllDistinct (h ∷ xs)

-- A node in no list.
pub record IsAlone (l : Links) (n : ℕ) : Type 0 where
  pub next : l.next n ≡ n
  pub prev : l.prev n ≡ n

Absent-append :
    (a : ℕ) (xs : List ℕ) (n : ℕ) → Absent a xs → (n == a) ≡ false → Absent a (xs ++ n ∷ [])
Absent-append a [] n k e = (e, tt)
Absent-append a (x ∷ xs) n k e = (k.0, Absent-append a xs n k.1 e)

AllDistinct-append :
    (xs : List ℕ) (n : ℕ) → AllDistinct xs → Absent n xs → AllDistinct (xs ++ n ∷ [])
AllDistinct-append [] n d k = (tt, tt)
AllDistinct-append (x ∷ xs) n d k =
    (Absent-append x xs n d.0 (ground (arith, k.0)), AllDistinct-append xs n d.1 k.1)

pub list_add_tail-IsList :
    (l : Links) (h : ℕ) (xs : List ℕ) (n : ℕ)
    → IsList l h xs
    → Absent n (h ∷ xs)
    → IsList (list_add_tail n h l) h (xs ++ n ∷ [])
unfolding list_add_tail
list_add_tail-IsList l h xs n v k = record {
  chain = Chain-insert l n h xs h v.chain v.distinct v.distinct.0 k k.0;
  distinct = AllDistinct-append (h ∷ xs) n v.distinct k;
}

-- Two memories agree where a node's own links are changed.
Agree-alone :
    (l : Links) (n : ℕ) (xs : List ℕ) → IsAlone l n → Absent n xs → Agree l (list_del n l) xs
unfolding list_del init_list_head unlink_between
Agree-alone l n [] a k = tt
Agree-alone l n (x ∷ xs) a k = (
  (ground (arith, a.next, a.prev, k.0), ground (arith, a.next, a.prev, k.0)),
  Agree-alone l n xs a k.1,
)

-- Deleting a node that is in no list leaves a list as it is.
pub list_del-alone :
    (l : Links) (h : ℕ) (xs : List ℕ) (n : ℕ)
    → IsList l h xs
    → IsAlone l n
    → Absent n (h ∷ xs)
    → IsList (list_del n l) h xs
list_del-alone l h xs n v a k =
    let at = Agree-alone l n (h ∷ xs) a k in
    record {
      chain = Chain-Agree l (list_del n l) h xs h at.1 at.0.0 at.0.1 v.chain;
      distinct = v.distinct;
    }

-- Two memories agree away from the first node, its head and what follows it.
Agree-first :
    (l : Links) (h x : ℕ) (xs : List ℕ)
    → l.prev x ≡ h
    → Absent h xs
    → Absent x xs
    → Absent (l.next x) xs
    → Agree l (list_del x l) xs
unfolding list_del init_list_head unlink_between
Agree-first l h x [] p a b c = tt
Agree-first l h x (y ∷ ys) p a b c = (
  (ground (arith, p, a.0, b.0, c.0), ground (arith, p, a.0, b.0, c.0)),
  Agree-first l h x ys p a.1 b.1 c.1,
)

pub list_del-first :
    (l : Links) (h x : ℕ) (xs : List ℕ) → IsList l h (x ∷ xs) → IsList (list_del x l) h xs
unfolding list_del init_list_head unlink_between
list_del-first l h x [] v = record {
  chain = ground (arith, v.chain.0, v.chain.1, v.distinct.0.0);
  distinct = (tt, tt);
}
list_del-first l h x (y ∷ ys) v =
    let c = v.chain in
    let d = v.distinct in
    let same =
      Agree-first l h x ys c.0.1 d.0.1.1 d.1.0.1 (subst (λ t. Absent t ys) (sym c.1.0.0) d.1.1.0) in
    record {
      chain = (
        (
          ground (arith, c.0, c.1.0, d.0.0, d.0.1.0, d.1.0.0),
          ground (arith, c.0, c.1.0, d.0.0, d.0.1.0, d.1.0.0),
        ),
        Chain-Agree l (list_del x l) y ys h same (ground (arith, c.0, c.1.0, d.0.1.0, d.1.0.0))
            (ground (arith, c.0, c.1.0, d.0.0, d.0.1.0)) c.1.1,
      );
      distinct = (d.0.1, d.1.1);
    }

-- The node that was deleted is in no list.
pub list_del-IsAlone : (l : Links) (n : ℕ) → IsAlone (list_del n l) n
unfolding list_del init_list_head
list_del-IsAlone l n = record { next = ground arith; prev = ground arith }
