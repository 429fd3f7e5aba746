-- ===== src/CallbackQueue/Draining.antt =====
-- No callback is lost: a runner that is left to itself handles all that was accepted.
use co_wq.Prelude.{
  ℕ, zero, suc, ◌+◌, ◌≤◌, ◌≡◌, refl, sym, ap, subst, ◌∙◌, inl, inr, Bool, true, false, ◌&&◌, Option,
  none, some, List, [], ◌∷◌, ◌++◌, append-nil, append_assoc, length, length-append, if◌then◌else◌,
  Bool-cases, arith,
}
use co_wq.CallbackQueue.{
  Drain, CallbackQueue, set_flag, new_queue, runner_cb, take_batch, run_entry, drain_entry,
  drain_from, drain_step, Event, starts, steps, apply, run,
}
use co_wq.CallbackQueue.Order.{
  batch_of, batch_of-none, is_some, waiters_of, IsOrdered, run-IsOrdered, run-new_queue-IsOrdered,
}

abbrev pub many_steps : ℕ → List Event
many_steps zero = []
many_steps (suc n) = steps ∷ many_steps n

-- What a drain notes of the waiters that it takes off: called, if they have a `func` and the right magic.
abbrev pub verdicts : (ℕ → Bool) → (ℕ → Bool) → List ℕ → List (ℕ × Bool)
verdicts func magic [] = []
verdicts func magic (w ∷ ws) = (w, func w && magic w) ∷ verdicts func magic ws

verdicts-append :
    (func magic : ℕ → Bool) (xs ys : List ℕ)
    → verdicts func magic (xs ++ ys) ≡ verdicts func magic xs ++ verdicts func magic ys
verdicts-append func magic [] ys = refl
verdicts-append func magic (x ∷ xs) ys =
    ap (λ l. (x, func x && magic x) ∷ l) (verdicts-append func magic xs ys)

-- The drain of `q` is over: all of `ws` is noted, and nothing is left.
pub record Settled (ws : List ℕ) (q q' : CallbackQueue) : Type 0 where
  pub accepted : q'.accepted ≡ q.accepted
  pub handled : q'.handled ≡ q.handled ++ verdicts q.has_func q.valid_magic ws
  pub pending : q'.pending ≡ []
  pub draining : q'.draining ≡ none
  pub running : q'.running ≡ false

-- `q` in the middle of a drain.
abbrev amid : Bool → List ℕ → List ℕ → CallbackQueue → CallbackQueue
amid keep_alive ws p q = record q {
  draining = some (record { keep_alive = keep_alive; batch = ws });
  pending = p;
}

abbrev rounds : List ℕ → List ℕ → ℕ
rounds ws [] = length ws + 1
rounds ws (x ∷ xs) = length ws + 1 + (length (x ∷ xs) + 1)

-- A queue with no drain makes no step.
run-many_steps-none : (n : ℕ) (q : CallbackQueue) → q.draining ≡ none → run (many_steps n) q ≡ q
unfolding run apply drain_step drain_from
run-many_steps-none zero q e = refl
run-many_steps-none (suc n) q e =
    ap (λ o. run (many_steps n) (drain_from o q)) e ∙ run-many_steps-none n q e

rounds-cons : (w : ℕ) (ws p : List ℕ) → rounds (w ∷ ws) p ≡ suc (rounds ws p)
rounds-cons w ws [] = omega arith
rounds-cons w ws (x ∷ xs) = omega arith

amid-Settled :
    (n : ℕ) (keep_alive : Bool) (ws p : List ℕ) (q : CallbackQueue)
    → rounds ws p ≤ n
    → Settled (ws ++ p) q (run (many_steps n) (amid keep_alive ws p q))
unfolding run apply drain_step drain_from drain_entry take_batch run_entry
amid-Settled zero keep_alive ws [] q h = absurd (omega arith)
amid-Settled zero keep_alive ws (x ∷ xs) q h = absurd (omega arith)
amid-Settled (suc n) keep_alive [] [] q h =
    let over : CallbackQueue = record q {
      pending = [];
      running = false;
      draining = none;
      leaving = keep_alive ∷ q.leaving;
    } in
    subst (Settled [] q) (sym (run-many_steps-none n over refl)) (record {
      accepted = refl;
      handled = sym (append-nil q.handled);
      pending = refl;
      draining = refl;
      running = refl;
    })
amid-Settled (suc n) keep_alive [] (x ∷ xs) q h =
    subst (λ l. Settled l q (run (many_steps n) (amid keep_alive (x ∷ xs) [] q)))
      (append-nil (x ∷ xs)) (amid-Settled n keep_alive (x ∷ xs) [] q (omega (arith, h)))
amid-Settled (suc n) keep_alive (w ∷ ws) p q h =
    let noted : CallbackQueue = record q {
      enqueued = set_flag w false q.enqueued;
      handled = q.handled ++ (w, q.has_func w && q.valid_magic w) ∷ [];
    } in
    let r = amid-Settled n keep_alive ws p noted (omega (arith, rounds-cons w ws p, h)) in
    record {
      accepted = r.accepted;
      handled = r.handled ∙ append_assoc q.handled _ _;
      pending = r.pending;
      draining = r.draining;
      running = r.running;
    }

is_some-none : (o : Option Drain) → is_some o ≡ false → o ≡ none
is_some-none none e = refl
is_some-none (some d) e = cc

-- A bound on the rounds that the logs give.
length-waiters_of : (hs : List (ℕ × Bool)) → length (waiters_of hs) ≡ length hs
length-waiters_of [] = refl
length-waiters_of ((w, b) ∷ hs) = omega (arith, length-waiters_of hs)

rounds_bound : (ws p : List ℕ) → rounds ws p ≤ length ws + length p + 2
rounds_bound ws [] = omega arith
rounds_bound ws (x ∷ xs) = omega arith

rounds-accepted :
    (q : CallbackQueue)
    → IsOrdered q
    → rounds (batch_of q.draining) q.pending ≤ length q.accepted + 2
rounds-accepted q v = omega (
  arith,
  rounds_bound (batch_of q.draining) q.pending,
  ap length v.log,
  length-append (waiters_of q.handled) (batch_of q.draining ++ q.pending),
  length-append (batch_of q.draining) q.pending,
)

-- The rest of a drain, from any point of it.
drain-Settled :
    (n : ℕ) (o : Option Drain) (q : CallbackQueue)
    → q.draining ≡ o
    → is_some o ≡ true
    → rounds (batch_of o) q.pending ≤ n
    → Settled (batch_of o ++ q.pending) q (run (many_steps n) q)
drain-Settled n none q e on h = cc
drain-Settled n (some d) q e on h =
    subst (λ r. Settled (d.batch ++ q.pending) q (run (many_steps n) r))
      (ap (λ o. record q { draining = o }) (sym e))
      (amid-Settled n d.keep_alive d.batch q.pending q h)

-- The runner is idle: nothing is left to do.
idle-Settled :
    (n : ℕ) (q : CallbackQueue)
    → IsOrdered q
    → is_some q.draining ≡ false
    → q.running ≡ false
    → Settled (batch_of q.draining ++ q.pending) q (run (many_steps n) q)
idle-Settled n q v idle stopped =
    let gone = is_some-none q.draining idle in
    subst (Settled _ q) (sym (run-many_steps-none n q gone)) (record {
      accepted = refl;
      handled = sym (
          ap (λ l. q.handled ++ verdicts q.has_func q.valid_magic l)
            (ap (λ o. batch_of o ++ q.pending) gone ∙ v.awake stopped)
          ∙ append-nil q.handled);
      pending = v.awake stopped;
      draining = gone;
      running = stopped;
    })

-- The runner has just been started, on no batch yet.
started-Settled :
    (n : ℕ) (q : CallbackQueue)
    → batch_of q.draining ≡ []
    → rounds (batch_of q.draining) q.pending ≤ n
    → Settled (batch_of q.draining ++ q.pending) q (
        run (many_steps n) (record q {
          scheduled = false;
          draining = some (record { keep_alive = q.has_guard; batch = [] });
        }))
started-Settled n q empty h =
    let started : CallbackQueue = record q {
      scheduled = false;
      draining = some (record { keep_alive = q.has_guard; batch = [] });
    } in
    let r =
      drain-Settled n started.draining started refl refl
        (subst (λ l. rounds l q.pending ≤ n) empty h) in
    subst (λ l. Settled (l ++ q.pending) q (run (many_steps n) started)) (sym empty)
      (record {
        accepted = r.accepted;
        handled = r.handled;
        pending = r.pending;
        draining = r.draining;
        running = r.running;
      })

if-Settled :
    (n : ℕ) (ws : List ℕ) (q : CallbackQueue) (b : Bool) (x y : CallbackQueue)
    → (b ≡ true → Settled ws q (run (many_steps n) x))
    → (b ≡ false → Settled ws q (run (many_steps n) y))
    → Settled ws q (run (many_steps n) (if b then x else y))
if-Settled n ws q true x y f g = f refl
if-Settled n ws q false x y f g = g refl

starts-Settled :
    (n : ℕ) (q : CallbackQueue)
    → IsOrdered q
    → length q.accepted + 2 ≤ n
    → Settled (batch_of q.draining ++ q.pending) q (run (many_steps n) (runner_cb q))
unfolding runner_cb
starts-Settled n q v h =
    let few : rounds (batch_of q.draining) q.pending ≤ n = omega (arith, rounds-accepted q v, h) in
    if-Settled n _ q q.scheduled _ _
      (λ on. started-Settled n q (batch_of-none q.draining (ground (arith, v.runner, on))) few)
      (λ off. elim (Bool-cases (is_some q.draining)) [
        | inl on ↦ drain-Settled n q.draining q refl on few
        | inr idle ↦ idle-Settled n q v idle (ground (arith, v.runner, off, idle))
      ])

-- Whatever has happened, once the executor starts the runner, where it is scheduled, and lets it make
-- its steps, every waiter that was ever accepted has been handled, in their order, and the queue is
-- idle and empty. Those that were still waiting are called if they have a `func` and the right magic.
-- Two steps more than there are accepted waiters are enough.
pub run-starts-Settled :
    (es : List Event) (magic func : ℕ → Bool) (n : ℕ) (q : CallbackQueue)
    → q ≡ run es (new_queue magic func)
    → length q.accepted + 2 ≤ n
    → Settled (batch_of q.draining ++ q.pending) q (run (starts ∷ many_steps n) q)
      × (waiters_of (run (starts ∷ many_steps n) q).handled ≡ q.accepted)
unfolding run apply
run-starts-Settled es magic func n q e h =
    let v = subst IsOrdered (sym e) (run-new_queue-IsOrdered es magic func) in
    let r = starts-Settled n q v h in
    let w = run-IsOrdered (starts ∷ many_steps n) q v in
    (
      r,
      sym (
          sym r.accepted
          ∙ w.log
          ∙ ap
              (λ o.
                waiters_of (run (many_steps n) (runner_cb q)).handled
                ++ (batch_of o ++ (run (many_steps n) (runner_cb q)).pending))
              r.draining
          ∙ ap (λ l. waiters_of (run (many_steps n) (runner_cb q)).handled ++ l) r.pending
          ∙ append-nil _),
    )
