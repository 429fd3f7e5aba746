-- ===== src/CallbackQueue/Order.antt =====
-- Callbacks run in the order in which they were posted, each once, and by one runner at a time.
use co_wq.Prelude.{
  ℕ, ◌+◌, ◌≡◌, refl, sym, ap, ◌∙◌, Bool, true, false, not, Option, none, some, List, [], ◌∷◌, ◌++◌,
  append-nil, append_assoc, ◌==◌, if◌then◌else◌, arith,
}
use co_wq.CallbackQueue.{
  Drain, CallbackQueue, set_flag, new_queue, post, runner_cb, take_batch, run_entry, drain_entry,
  drain_from, drain_step, is_empty, release_from, release_guard, Event, posts, starts, steps,
  releases, sets_magic, sets_func, apply, run,
}

-- The waiters that are in the drain's hands.
abbrev pub batch_of : Option Drain → List ℕ
batch_of none = []
batch_of (some d) = d.batch

abbrev pub is_some : Option Drain → Bool
is_some none = false
is_some (some d) = true

abbrev pub waiters_of : List (ℕ × Bool) → List ℕ
waiters_of [] = []
waiters_of ((w, called) ∷ hs) = w ∷ waiters_of hs

abbrev pub occurs : ℕ → List ℕ → ℕ
occurs w [] = 0
occurs w (x ∷ xs) = (if x == w then 1 else 0) + occurs w xs

-- `log` is what the two logs and the lists say together; `flags` is that a waiter is marked exactly while
-- it is in a list, and in one place; `runner` that the queue is `running` while the runner is scheduled or
-- drains, and never both; and `awake` that nothing is pending with no runner.
pub record IsOrdered (q : CallbackQueue) : Type 0 where
  pub log : q.accepted ≡ waiters_of q.handled ++ (batch_of q.draining ++ q.pending)
  pub flags :
      (w : ℕ)
      → occurs w (batch_of q.draining) + occurs w q.pending ≡ (if q.enqueued w then 1 else 0)
  pub runner :
      (if q.scheduled then 1 else 0) + (if is_some q.draining then 1 else 0)
      ≡ (if q.running then 1 else 0)
  pub awake : q.running ≡ false → q.pending ≡ []

new_queue-IsOrdered : (magic func : ℕ → Bool) → IsOrdered (new_queue magic func)
unfolding new_queue
new_queue-IsOrdered magic func = record {
  log = refl;
  flags = λ w. refl;
  runner = refl;
  awake = λ e. refl;
}

occurs-append : (w : ℕ) (xs ys : List ℕ) → occurs w (xs ++ ys) ≡ occurs w xs + occurs w ys
occurs-append w [] ys = omega arith
occurs-append w (x ∷ xs) ys = omega (arith, occurs-append w xs ys)

waiters_of-append :
    (hs : List (ℕ × Bool)) (w : ℕ) (b : Bool)
    → waiters_of (hs ++ (w, b) ∷ []) ≡ waiters_of hs ++ w ∷ []
waiters_of-append [] w b = refl
waiters_of-append ((x, c) ∷ hs) w b = ap (λ l. x ∷ l) (waiters_of-append hs w b)

-- A fourth part behind three.
append_at_end : (a b c : List ℕ) (w : ℕ) → (a ++ (b ++ c)) ++ w ∷ [] ≡ a ++ (b ++ (c ++ w ∷ []))
append_at_end a b c w = simp append_assoc

if-IsOrdered :
    (b : Bool) (x y : CallbackQueue)
    → (b ≡ true → IsOrdered x)
    → (b ≡ false → IsOrdered y)
    → IsOrdered (if b then x else y)
if-IsOrdered true x y f g = f refl
if-IsOrdered false x y f g = g refl

-- A waiter linked at the end of `pending`, with the runner's three fields as they may be afterwards.
linked-IsOrdered :
    (w : ℕ) (q : CallbackQueue) (running has_guard scheduled : Bool)
    → IsOrdered q
    → q.enqueued w ≡ false
    → (if scheduled then 1 else 0) + (if is_some q.draining then 1 else 0) ≡ 1
    → running ≡ true
    → IsOrdered (record q {
      pending = q.pending ++ w ∷ [];
      enqueued = set_flag w true q.enqueued;
      accepted = q.accepted ++ w ∷ [];
      running = running;
      has_guard = has_guard;
      scheduled = scheduled;
    })
linked-IsOrdered w q running has_guard scheduled v free one on = record {
  log =
      ap (λ l. l ++ w ∷ []) v.log
      ∙ append_at_end (waiters_of q.handled) (batch_of q.draining) q.pending w;
  flags = λ a. ground (arith, occurs-append a q.pending (w ∷ []), v.flags a, v.flags w, free);
  runner = rw on one;
  awake = λ e. cc;
}

post-IsOrdered : (w : ℕ) (q : CallbackQueue) → IsOrdered q → IsOrdered (post w q)
unfolding post
post-IsOrdered w q v =
    if-IsOrdered (not (q.valid_magic w)) _ _ (λ bad. v)
      (λ good.
        if-IsOrdered (q.enqueued w) _ _ (λ marked. v)
          (λ free.
            if-IsOrdered q.running _ _
              (λ on.
                linked-IsOrdered w q q.running q.has_guard q.scheduled v free
                  (ground (arith, v.runner, on)) on)
              (λ off.
                linked-IsOrdered w q true true true v free (ground (arith, v.runner, off)) refl)))

pub batch_of-none : (o : Option Drain) → is_some o ≡ false → batch_of o ≡ []
batch_of-none none e = refl
batch_of-none (some d) e = cc

runner_cb-IsOrdered : (q : CallbackQueue) → IsOrdered q → IsOrdered (runner_cb q)
unfolding runner_cb
runner_cb-IsOrdered q v =
    if-IsOrdered q.scheduled _ _
      (λ on.
        let idle : is_some q.draining ≡ false = ground (arith, v.runner, on) in
        let nothing = batch_of-none q.draining idle in
        record {
          log = v.log ∙ ap (λ l. waiters_of q.handled ++ (l ++ q.pending)) nothing;
          flags = λ w. ap (λ l. occurs w l + occurs w q.pending) (sym nothing) ∙ v.flags w;
          runner = ground (arith, v.runner, on, idle);
          awake = v.awake;
        })
      (λ off. v)

is_empty-nil : (xs : List ℕ) → is_empty xs ≡ true → xs ≡ []
is_empty-nil [] e = refl
is_empty-nil (x ∷ xs) e = cc

drain_entry-IsOrdered :
    (keep_alive : Bool) (batch : List ℕ) (q : CallbackQueue)
    → IsOrdered q
    → batch_of q.draining ≡ batch
    → is_some q.draining ≡ true
    → IsOrdered (drain_entry keep_alive batch q)
unfolding drain_entry take_batch run_entry
drain_entry-IsOrdered keep_alive [] q v e on =
    if-IsOrdered (is_empty q.pending) _ _
      (λ none_left. record {
        log = v.log ∙ ap (λ l. waiters_of q.handled ++ (l ++ q.pending)) e;
        flags = λ w. ap (λ l. occurs w l + occurs w q.pending) (sym e) ∙ v.flags w;
        runner = ground (arith, v.runner, on);
        awake = λ _. is_empty-nil q.pending none_left;
      })
      (λ more. record {
        log =
            v.log
            ∙ ap (λ l. waiters_of q.handled ++ (l ++ q.pending)) e
            ∙ ap (λ l. waiters_of q.handled ++ l) (sym (append-nil q.pending));
        flags = λ w. omega (arith, v.flags w, ap (occurs w) e);
        runner = ground (arith, v.runner, on);
        awake = λ _. refl;
      })
drain_entry-IsOrdered keep_alive (w ∷ ws) q v e on = record {
  log =
      v.log
      ∙ ap (λ l. waiters_of q.handled ++ (l ++ q.pending)) e
      ∙ sym (append_assoc (waiters_of q.handled) (w ∷ []) (ws ++ q.pending))
      ∙ ap (λ l. l ++ (ws ++ q.pending)) (sym (waiters_of-append q.handled w _));
  flags = λ a. ground (arith, v.flags a, v.flags w, ap (occurs a) e, ap (occurs w) e);
  runner = ground (arith, v.runner, on);
  awake = v.awake;
}

drain_from-IsOrdered :
    (o : Option Drain) (q : CallbackQueue)
    → IsOrdered q
    → q.draining ≡ o
    → IsOrdered (drain_from o q)
unfolding drain_from
drain_from-IsOrdered none q v e = v
drain_from-IsOrdered (some d) q v e =
    drain_entry-IsOrdered d.keep_alive d.batch q v (ap batch_of e) (ap is_some e)

release_from-IsOrdered :
    (ks : List Bool) (q : CallbackQueue) → IsOrdered q → IsOrdered (release_from ks q)
unfolding release_from
release_from-IsOrdered [] q v = v
release_from-IsOrdered (k ∷ ks) q v = record {
  log = v.log;
  flags = v.flags;
  runner = v.runner;
  awake = v.awake;
}

apply-IsOrdered : (e : Event) (q : CallbackQueue) → IsOrdered q → IsOrdered (apply e q)
unfolding apply drain_step release_guard
apply-IsOrdered (posts w) q v = post-IsOrdered w q v
apply-IsOrdered starts q v = runner_cb-IsOrdered q v
apply-IsOrdered steps q v = drain_from-IsOrdered q.draining q v refl
apply-IsOrdered releases q v = release_from-IsOrdered q.leaving q v
apply-IsOrdered (sets_magic w b) q v = record {
  log = v.log;
  flags = v.flags;
  runner = v.runner;
  awake = v.awake;
}
apply-IsOrdered (sets_func w b) q v = record {
  log = v.log;
  flags = v.flags;
  runner = v.runner;
  awake = v.awake;
}

pub run-IsOrdered : (es : List Event) (q : CallbackQueue) → IsOrdered q → IsOrdered (run es q)
unfolding run
run-IsOrdered [] q v = v
run-IsOrdered (e ∷ es) q v = run-IsOrdered es (apply e q) (apply-IsOrdered e q v)

-- In every history of a callback queue, whatever the threads do and in whatever order, the waiters that
-- it accepted are handled in the order of acceptance, each once: those handled, then the rest of
-- the drain's batch, then those pending are the accepted ones. A waiter is marked as enqueued exactly
-- while it is in the batch or pending, and is there once. The queue counts as running exactly while its
-- runner is scheduled or drains, which are never both, and nothing is pending while it is not running.
pub run-new_queue-IsOrdered :
    (es : List Event) (magic func : ℕ → Bool) → IsOrdered (run es (new_queue magic func))
run-new_queue-IsOrdered es magic func =
    run-IsOrdered es (new_queue magic func) (new_queue-IsOrdered magic func)
