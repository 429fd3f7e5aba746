-- ===== src/Serial/Turns.antt =====
-- Who holds the slot of a serial queue, and in which order it passes.
use co_wq.Prelude.{
  ℕ, suc, ◌+◌, ◌≤◌, ◌<◌, ◌≡◌, refl, sym, ap, subst, ◌∙◌, inl, inr, false, List, [], ◌∷◌, ◌++◌,
  length, length-append, append-nil, append_assoc, if◌then◌else◌, Bool-cases, arith,
}
use co_wq.Serial.{
  SerialQueue, Slot, serial_queue_init, serial_acquire_or_enqueue, serial_release, release_to,
  move_all, serial_collect_waiters,
}

-- The histories of a queue: awaiters arrive, a holder gives the slot back, and a closing socket
-- collects the waiters. `arrived` are the awaiters in the order of their calls, `collected` those that were
-- collected, `released` counts the calls of `serial_release` and `closings` those of
-- `serial_collect_waiters`. Only a node that was posted and has not released yet can release.
pub data Turn : Slot → List ℕ → List ℕ → ℕ → ℕ → Type 0 where
  opened : Turn (record { q = serial_queue_init; posted = [] }) [] [] 0 0
  arrives :
      {s : Slot} {arrived collected : List ℕ} {released closings : ℕ} (node : ℕ)
      → Turn s arrived collected released closings
      → Turn (serial_acquire_or_enqueue node s).1 (arrived ++ node ∷ []) collected released closings
  gives_back :
      {s : Slot} {arrived collected : List ℕ} {released closings : ℕ}
      → Turn s arrived collected released closings
      → released < length s.posted
      → Turn (serial_release s) arrived collected (suc released) closings
  collects :
      {s : Slot} {arrived collected : List ℕ} {released closings : ℕ} (q : SerialQueue)
      (out_pending : List ℕ)
      → Turn s arrived collected released closings
      → serial_collect_waiters (s.q ∷ []) [] ≡ (q ∷ [], out_pending)
      → Turn (record s { q = q }) arrived (collected ++ out_pending) released (suc closings)

-- Each awaiter of a list was posted or collected, and in the order of the list.
pub data Parted : List ℕ → List ℕ → List ℕ → Type 0 where
  nobody : Parted [] [] []
  got_it :
      {posted collected early : List ℕ} (node : ℕ)
      → Parted posted collected early
      → Parted (posted ++ node ∷ []) collected (early ++ node ∷ [])
  gave_up :
      {posted collected early : List ℕ} (node : ℕ)
      → Parted posted collected early
      → Parted posted (collected ++ node ∷ []) (early ++ node ∷ [])

-- The holders are those posted that have not released.
pub record IsFair (s : Slot) (arrived collected : List ℕ) (released closings : ℕ) : Type 0 where
  pub one_holder : closings ≡ 0 → length s.posted ≡ released + (if s.q.locked then 1 else 0)
  pub holders : length s.posted ≤ released + (if s.q.locked then 1 else 0) + closings
  pub early : List ℕ
  pub parted : Parted s.posted collected early
  pub order : early ++ s.q.waiters ≡ arrived
  pub idle : s.q.locked ≡ false → s.q.waiters ≡ []

initial-IsFair : IsFair (record { q = serial_queue_init; posted = [] }) [] [] 0 0
unfolding serial_queue_init
initial-IsFair = record {
  one_holder = λ e. refl;
  holders = omega arith;
  early = [];
  parted = nobody;
  order = refl;
  idle = λ e. refl;
}

length-snoc : (xs : List ℕ) (x : ℕ) → length (xs ++ x ∷ []) ≡ suc (length xs)
length-snoc xs x = omega (arith, length-append xs (x ∷ []))

arrival-IsFair :
    (node : ℕ) (s : Slot) {arrived collected : List ℕ} {released closings : ℕ}
    → IsFair s arrived collected released closings
    → IsFair (serial_acquire_or_enqueue node s).1 (arrived ++ node ∷ []) collected released closings
unfolding serial_acquire_or_enqueue
arrival-IsFair node s f = elim (Bool-cases s.q.locked) [
  | inl busy ↦ rw busy (record {
    one_holder = λ e. f.one_holder e ∙ ground (arith, busy);
    holders = ground (arith, busy, f.holders);
    early = f.early;
    parted = f.parted;
    order = sym (append_assoc f.early s.q.waiters (node ∷ [])) ∙ ap (λ l. l ++ node ∷ []) f.order;
    idle = λ e. cc;
  })
  | inr free ↦
      let none = f.idle free in
      rw (free, none)
        (record {
          one_holder = λ e. ground (arith, length-snoc s.posted node, f.one_holder e, free);
          holders = ground (arith, length-snoc s.posted node, f.holders, free);
          early = f.early ++ node ∷ [];
          parted = got_it node f.parted;
          order =
              append-nil (f.early ++ node ∷ [])
              ∙ ap (λ l. l ++ node ∷ [])
                  (sym (append-nil f.early) ∙ ap (λ l. f.early ++ l) (sym none) ∙ f.order);
          idle = λ e. cc;
        })
]

release-IsFair :
    (s : Slot) (waiters : List ℕ) {arrived collected : List ℕ} {released closings : ℕ}
    → s.q.waiters ≡ waiters
    → IsFair s arrived collected released closings
    → released < length s.posted
    → IsFair (release_to waiters s) arrived collected (suc released) closings
unfolding release_to
release-IsFair s [] w f l = record {
  one_holder = λ e. ground (arith, f.one_holder e);
  holders = ground (arith, f.holders);
  early = f.early;
  parted = f.parted;
  order = f.order;
  idle = λ e. w;
}
release-IsFair s (next ∷ waiters) w f l = record {
  one_holder = λ e. ground (arith, f.one_holder e, length-snoc s.posted next);
  holders = ground (arith, f.holders, length-snoc s.posted next);
  early = f.early ++ next ∷ [];
  parted = got_it next f.parted;
  order = append_assoc f.early (next ∷ []) waiters ∙ ap (λ l. f.early ++ l) (sym w) ∙ f.order;
  idle = λ e. absurd (nonempty (sym w ∙ f.idle e));
}
  where
    nonempty : next ∷ waiters ≡ [] → ⊥
    nonempty e = cc

-- The nodes moved are collected in their order.
moved-Parted :
    (ws out_pending collected : List ℕ) {posted early : List ℕ}
    → Parted posted (collected ++ out_pending) early
    → Parted posted (collected ++ move_all ws out_pending) (early ++ ws)
unfolding move_all
moved-Parted [] out_pending collected {posted = posted} {early = early} p =
    subst (Parted posted (collected ++ out_pending)) (sym (append-nil early)) p
moved-Parted (w ∷ ws) out_pending collected {posted = posted} {early = early} p =
    subst (Parted posted (collected ++ move_all ws (out_pending ++ w ∷ [])))
      (append_assoc early (w ∷ []) ws)
      (moved-Parted ws (out_pending ++ w ∷ []) collected (
        subst (λ l. Parted posted l (early ++ w ∷ [])) (append_assoc collected out_pending (w ∷ []))
          (gave_up w p)))

collection-IsFair :
    (s : Slot) {arrived collected : List ℕ} {released closings : ℕ}
    → IsFair s arrived collected released closings
    → (let c = serial_collect_waiters (s.q ∷ []) [] in
        (q : SerialQueue)
        → c.0 ≡ q ∷ []
        → IsFair (record s { q = q }) arrived (collected ++ c.1) released (suc closings))
unfolding serial_collect_waiters
collection-IsFair s {arrived = arrived} {collected = collected} {released = released}
      {closings = closings} f q e =
    subst
      (λ x.
        IsFair (record s { q = x }) arrived (collected ++ move_all s.q.waiters []) released
          (suc closings))
      (head_same e)
      (record {
        one_holder = λ z. absurd (suc_nonzero z);
        holders = elim (Bool-cases s.q.locked) [
          | inl busy ↦ ground (arith, f.holders, busy)
          | inr free ↦ ground (arith, f.holders, free)
        ];
        early = f.early ++ s.q.waiters;
        parted =
            moved-Parted s.q.waiters [] collected
              (subst (λ l. Parted s.posted l f.early) (sym (append-nil collected)) f.parted);
        order = append-nil (f.early ++ s.q.waiters) ∙ f.order;
        idle = λ z. refl;
      })
  where
    suc_nonzero : suc closings ≡ 0 → ⊥
    suc_nonzero z = omega arith

    head_same : {a b : SerialQueue} → a ∷ [] ≡ b ∷ [] → a ≡ b
    head_same h = cc

-- As long as no socket that uses the queue has collected its waiters, at most one awaiter holds the slot, and
-- exactly one while the queue is locked. Each collecting may let one awaiter more hold it at once, and no more. In
-- every history the slot goes to the awaiters in the order in which they asked for it, each once, those
-- apart that were collected, and an awaiter waits only while the queue is locked.
pub Turn-IsFair :
    (s : Slot) (arrived collected : List ℕ) (released closings : ℕ)
    → Turn s arrived collected released closings
    → IsFair s arrived collected released closings
unfolding serial_release
Turn-IsFair s arrived collected released closings opened = initial-IsFair
Turn-IsFair s arrived collected released closings
      (arrives {s = s0} {arrived = arrived0} {collected = _} {released = _} {closings = _} node t) =
    arrival-IsFair node s0 (Turn-IsFair s0 arrived0 collected released closings t)
Turn-IsFair s arrived collected released closings
      (gives_back {s = s0} {arrived = _} {collected = _} {released = released0} {closings = _} t
        l) =
    release-IsFair s0 s0.q.waiters refl (Turn-IsFair s0 arrived collected released0 closings t) l
Turn-IsFair s arrived collected released closings
      (collects {s = s0} {arrived = _} {collected = collected0} {released = _}
        {closings = closings0} q out_pending t e) =
    subst (λ l. IsFair (record s0 { q = q }) arrived (collected0 ++ l) released (suc closings0))
      (ap (λ p. p.1) e)
      (collection-IsFair s0 (Turn-IsFair s0 arrived collected0 released closings0 t) q
        (ap (λ p. p.0) e))
