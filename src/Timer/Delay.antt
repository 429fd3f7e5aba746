-- ===== src/Timer/Delay.antt =====
-- `DelayAwaiter`: a delayed coroutine leaves the heap at the first check that finds it due.
use co_wq.Prelude.{
  ℕ, ◌+◌, ◌≤◌, ◌<◌, ◌≡◌, refl, inl, inr, Bool, true, false, ◌&&◌, List, [], ◌∷◌, leb, ◌==◌,
  if◌then◌else◌, Bool-cases, arith,
}
use co_wq.Timer.{
  Heap, nil, node, TimerQueue, tim_chk_cb, post_delayed_work, delay_suspend, set_owned,
}
use co_wq.Timer.Merging.{Ordered, count, count-nil, count-node}
use co_wq.Timer.Expiry.{named, count_list, Rising, IsValid, tim_chk_cb-Fired}
use co_wq.Timer.Scheduling.{post_delayed_work-Posted}

-- The node `i` with the expiry `due`.
abbrev exact : ℕ → ℕ → ℕ → ℕ → Bool
exact i due x e = (x == i) && (e == due)

count-exact : (i due : ℕ) (h : Heap) → count (exact i due) h ≤ count (named i) h
count-exact i due nil = omega (arith, count-nil (exact i due))
count-exact i due (node x e c s) = ground (
  arith,
  count-node (exact i due) x e c s,
  count-node (named i) x e c s,
  count-exact i due c,
  count-exact i due s,
)

count_list-exact :
    (i due : ℕ) (xs : List (ℕ × ℕ)) → count_list (exact i due) xs ≤ count_list (named i) xs
count_list-exact i due [] = omega arith
count_list-exact i due ((x, e) ∷ xs) = ground (arith, count_list-exact i due xs)

-- What is due is in no heap where all is later, and what is not due is not among those taken off.
count-Ordered : (i due low : ℕ) (h : Heap) → due < low → Ordered low h → count (exact i due) h ≡ 0
count-Ordered i due low nil l o = count-nil (exact i due)
count-Ordered i due low (node x e c s) l o =
    let below = count-Ordered i due e c (omega (arith, o.0, l)) o.1 in
    ground (arith, count-node (exact i due) x e c s, below, count-Ordered i due low s l o.2, o.0)

count_list-Rising :
    (i due low now : ℕ) (xs : List (ℕ × ℕ))
    → now < due
    → Rising low now xs
    → count_list (exact i due) xs ≡ 0
count_list-Rising i due low now [] l r = refl
count_list-Rising i due low now ((x, e) ∷ xs) l r =
    ground (arith, count_list-Rising i due e now xs l r.2, r.1)

-- A coroutine that is delayed by `ms` at the time `now` stays in the heap through a check before
-- `now + ms`, and leaves it at a check from then on. Its node must be in no queue before.
pub tim_chk_cb-delay_suspend :
    (now id ms time : ℕ) (q : TimerQueue)
    → IsValid q
    → q.owned id ≡ false
    → count (named id) (tim_chk_cb time (delay_suspend now id ms q)).heap_root
      ≡ (if leb (now + ms) time then 0 else 1)
unfolding delay_suspend
tim_chk_cb-delay_suspend now id ms time q v e =
    let armed : TimerQueue = record q { has_func = set_owned id true q.has_func } in
    let armed-IsValid : IsValid armed = record {
      root = v.root;
      ordered = v.ordered;
      owners = v.owners;
    } in
    let posted = post_delayed_work-Posted now id ms armed armed-IsValid e in
    let fired = tim_chk_cb-Fired time (post_delayed_work now id ms armed) posted.valid in
    let after = (tim_chk_cb time (post_delayed_work now id ms armed)).heap_root in
    elim (Bool-cases (leb (now + ms) time)) [
      | inl due ↦
          let none =
            count-Ordered id (now + ms) (time + 1) after (ground (arith, due)) fired.later in
          rw due (
            ground (
              arith,
              v.owners id,
              e,
              posted.nodes (named id),
              posted.nodes (exact id (now + ms)),
              fired.nodes (named id),
              fired.nodes (exact id (now + ms)),
              count-exact id (now + ms) after,
              count_list-exact id (now + ms) fired.popped,
              none,
            ))
      | inr early ↦
          let none =
            count_list-Rising id (now + ms) 0 time fired.popped (ground (arith, early))
              fired.rising in
          rw early (
            ground (
              arith,
              v.owners id,
              e,
              posted.nodes (named id),
              posted.nodes (exact id (now + ms)),
              fired.nodes (named id),
              fired.nodes (exact id (now + ms)),
              count-exact id (now + ms) after,
              count_list-exact id (now + ms) fired.popped,
              none,
            ))
    ]
