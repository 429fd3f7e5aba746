-- ===== src/Serial/Closing.antt =====
-- Closing: the waiters of all queues are collected, and resumed together.
use co_wq.Prelude.{
  ℕ, suc, ◌≡◌, refl, sym, ap, ◌∙◌, false, List, [], ◌∷◌, ◌++◌, append-nil, append_assoc,
  if◌then◌else◌,
}
use co_wq.Serial.{
  SerialQueue, move_all, serial_collect_waiters, serial_post_pending, list_empty, with_resume,
  Executor,
}

-- The waiters of the queues, queue by queue, each in the order of arrival.
abbrev pub all_waiters : List SerialQueue → List ℕ
all_waiters [] = []
all_waiters (q ∷ qs) = q.waiters ++ all_waiters qs

abbrev pub AllFree : List SerialQueue → Type 0
AllFree [] = Unit {0}
AllFree (q ∷ qs) = ((q.locked ≡ false) × (q.waiters ≡ [])) × AllFree qs

move_all-append : (ws out_pending : List ℕ) → move_all ws out_pending ≡ out_pending ++ ws
unfolding move_all
move_all-append [] out_pending = sym (append-nil out_pending)
move_all-append (w ∷ ws) out_pending =
    move_all-append ws (out_pending ++ w ∷ []) ∙ append_assoc out_pending (w ∷ []) ws

collect-waiters :
    (qs : List SerialQueue) (out_pending : List ℕ)
    → (serial_collect_waiters qs out_pending).1 ≡ out_pending ++ all_waiters qs
unfolding serial_collect_waiters
collect-waiters [] out_pending = sym (append-nil out_pending)
collect-waiters (q ∷ qs) out_pending =
    collect-waiters qs (move_all q.waiters out_pending)
    ∙ ap (λ l. l ++ all_waiters qs) (move_all-append q.waiters out_pending)
    ∙ append_assoc out_pending q.waiters (all_waiters qs)

collect-AllFree :
    (qs : List SerialQueue) (out_pending : List ℕ)
    → AllFree (serial_collect_waiters qs out_pending).0
unfolding serial_collect_waiters
collect-AllFree [] out_pending = tt
collect-AllFree (q ∷ qs) out_pending =
    ((refl, refl), collect-AllFree qs (move_all q.waiters out_pending))

-- What closing did: the queues are free and empty, and the executor has every waiter behind its queue.
pub record Closed (qs qs' : List SerialQueue) (e e' : Executor) : Type 0 where
  pub free : AllFree qs'
  pub queued : e'.queue ≡ e.queue ++ with_resume (all_waiters qs)
  pub wakes : e'.trigs ≡ (if list_empty (all_waiters qs) then e.trigs else suc e.trigs)

post-queue :
    (ns : List ℕ) (e : Executor) → (serial_post_pending ns e).queue ≡ e.queue ++ with_resume ns
unfolding serial_post_pending
post-queue [] e = sym (append-nil e.queue)
post-queue (n ∷ ns) e = refl

post-trigs :
    (ns : List ℕ) (e : Executor)
    → (serial_post_pending ns e).trigs ≡ (if list_empty ns then e.trigs else suc e.trigs)
unfolding serial_post_pending
post-trigs [] e = refl
post-trigs (n ∷ ns) e = refl

-- Collecting the waiters of several queues and posting them hands every waiter to the executor
-- exactly once with the callback that resumes its coroutine, queue by queue in the order of arrival.
-- The executor is woken once, or not at all if nobody waited, and every queue is free and empty.
pub collect-Closed :
    (qs : List SerialQueue) (e : Executor)
    → Closed qs
        (serial_collect_waiters qs []).0
        e
        (serial_post_pending (serial_collect_waiters qs []).1 e)
collect-Closed qs e =
    let ns = (serial_collect_waiters qs []).1 in
    let same = collect-waiters qs [] in
    record {
      free = collect-AllFree qs [];
      queued = post-queue ns e ∙ ap (λ l. e.queue ++ with_resume l) same;
      wakes = post-trigs ns e ∙ ap (λ l. if list_empty l then e.trigs else suc e.trigs) same;
    }
