-- ===== src/Task/Lifetime.antt =====
-- Where the frame of a detached coroutine is, when nothing comes between the reset of `_running_on_executor` and the
-- test of `done`, as on an executor with one thread.
use co_wq.Prelude.{
  ℕ, suc, ◌≡◌, refl, sym, ap, ap₂, subst, Bool, true, false, not, ◌&&◌, if◌then◌else◌, List, [],
  ◌∷◌, arith,
}
use co_wq.Task.{
  Func, wk_cb, WorkPromise, new_promise, post, prepare_for_post, post_to, enter_wk_cb,
  leave_running, destroy_if_done, call_user, on_completed_adapter, call_func, Step, takes, ends,
  leaves, tests, apply, run,
}

-- Who will see to the frame. `user` tells whether the task has a callback.
pub data Stage (user : Bool) (p : WorkPromise) : Type 0 where
  -- In the run queue, to be resumed first.
  posted :
      p.queued ≡ true
      → p.func ≡ wk_cb
      → p.in_wk_cb ≡ false
      → p.leaving ≡ false
      → p.started ≡ false
      → p.done ≡ false
      → p.running_on_executor ≡ false
      → p.completion_posted ≡ false
      → p.user_on_completed ≡ user
      → p.user_calls ≡ 0
      → p.destroyed ≡ 0
      → Stage user p
  -- Resumed by `wk_cb`.
  resumed :
      p.queued ≡ false
      → p.in_wk_cb ≡ true
      → p.leaving ≡ false
      → p.started ≡ true
      → p.done ≡ false
      → p.running_on_executor ≡ true
      → p.completion_posted ≡ false
      → p.user_on_completed ≡ user
      → p.user_calls ≡ 0
      → p.destroyed ≡ 0
      → Stage user p
  -- Ended, within `wk_cb`, which will destroy the frame.
  destroying :
      p.queued ≡ false
      → p.in_wk_cb ≡ true
      → p.leaving ≡ false
      → p.done ≡ true
      → p.user_calls ≡ (if user then 1 else 0)
      → p.destroyed ≡ 0
      → Stage user p
  -- Suspended, to be resumed by somebody else.
  suspended :
      p.queued ≡ false
      → p.in_wk_cb ≡ false
      → p.leaving ≡ false
      → p.started ≡ true
      → p.done ≡ false
      → p.running_on_executor ≡ false
      → p.completion_posted ≡ false
      → p.user_on_completed ≡ user
      → p.user_calls ≡ 0
      → p.destroyed ≡ 0
      → Stage user p
  -- Ended elsewhere: the node is in the run queue, for `wk_cb`.
  ended :
      p.queued ≡ true
      → p.func ≡ wk_cb
      → p.in_wk_cb ≡ false
      → p.leaving ≡ false
      → p.done ≡ true
      → p.user_calls ≡ (if user then 1 else 0)
      → p.destroyed ≡ 0
      → Stage user p
  -- Destroyed.
  over :
      p.queued ≡ false
      → p.in_wk_cb ≡ false
      → p.leaving ≡ false
      → p.done ≡ true
      → p.user_calls ≡ (if user then 1 else 0)
      → p.destroyed ≡ 1
      → Stage user p

module _ (user : Bool) where
  if-Stage :
      (b : Bool) (x y : WorkPromise)
      → (b ≡ true → Stage user x)
      → (b ≡ false → Stage user y)
      → Stage user (if b then x else y)
  if-Stage true x y f g = f refl
  if-Stage false x y f g = g refl

  -- A step that is taken only where a test holds which this stage settles.
  skip-Stage :
      (b : Bool) (x y : WorkPromise) → b ≡ false → Stage user y → Stage user (if b then x else y)
  skip-Stage b x y e k = if-Stage b x y (λ f. cc) (λ f. k)

  step-Stage :
      (b : Bool) (x y : WorkPromise) → b ≡ true → Stage user x → Stage user (if b then x else y)
  step-Stage b x y e k = if-Stage b x y (λ f. k) (λ f. cc)

  -- The end of `wk_cb` for a coroutine that it has resumed, and for one that it has not.
  inside :
      (p : WorkPromise)
      → p.in_wk_cb ≡ true
      → Stage user (destroy_if_done (leave_running p))
      → Stage user (apply tests (apply leaves p))
  unfolding apply leave_running
  inside p w k = subst (λ b. Stage user (apply tests (if b then leave_running p else p))) (sym w) k

  not_inside :
      (p : WorkPromise)
      → p.in_wk_cb ≡ false
      → p.leaving ≡ false
      → Stage user p
      → Stage user (apply tests (apply leaves p))
  unfolding apply
  not_inside p w v k =
      subst (λ b. Stage user (apply tests (if b then leave_running p else p))) (sym w)
        (skip-Stage p.leaving _ _ v k)

  at_rest : (p : WorkPromise) → Stage user p → p.leaving ≡ false
  at_rest p (posted q f w v s d r c u n z) = v
  at_rest p (resumed q w v s d r c u n z) = v
  at_rest p (destroying q w v d n z) = v
  at_rest p (suspended q w v s d r c u n z) = v
  at_rest p (ended q f w v d n z) = v
  at_rest p (over q w v d n z) = v

  called-Stage :
      (f : Func) (p : WorkPromise)
      → p.func ≡ f
      → Stage user (call_func f p)
      → Stage user (call_func p.func p)
  called-Stage f p e k = subst (λ g. Stage user (call_func g p)) (sym e) k

  takes-Stage : (p : WorkPromise) → Stage user p → Stage user (apply takes p)
  unfolding apply enter_wk_cb
  takes-Stage p (posted q f w v s d r c u n z) = step-Stage p.queued _ _ q (
      called-Stage wk_cb (record p { queued = false }) f
        (resumed refl refl v (ground (arith, d)) d refl c u n z))
  takes-Stage p (resumed q w v s d r c u n z) =
      skip-Stage p.queued _ _ q (resumed q w v s d r c u n z)
  takes-Stage p (destroying q w v d n z) = skip-Stage p.queued _ _ q (destroying q w v d n z)
  takes-Stage p (suspended q w v s d r c u n z) =
      skip-Stage p.queued _ _ q (suspended q w v s d r c u n z)
  takes-Stage p (ended q f w v d n z) =
      step-Stage p.queued _ _ q
        (called-Stage wk_cb (record p { queued = false }) f (destroying refl refl v d n z))
  takes-Stage p (over q w v d n z) = skip-Stage p.queued _ _ q (over q w v d n z)

  -- The callback of the user, for a coroutine that has not called it.
  called_once :
      (b : Bool) (n : ℕ) → b ≡ user → n ≡ 0 → (if b then suc n else n) ≡ (if user then 1 else 0)
  called_once b n u z = ap₂ (λ c m. if c then suc m else m) u z

  -- The adapter at the end of a coroutine, within `wk_cb` and elsewhere.
  ends-Stage : (p : WorkPromise) → Stage user p → Stage user (apply ends p)
  unfolding apply on_completed_adapter call_user post
  ends-Stage p (posted q f w v s d r c u n z) =
      skip-Stage (p.started && not p.done) _ _ (ground (arith, s)) (posted q f w v s d r c u n z)
  ends-Stage p (resumed q w v s d r c u n z) =
      step-Stage (p.started && not p.done) _ _ (ground (arith, s, d)) (
        skip-Stage (not p.completion_posted && not p.running_on_executor) _ _ (ground (arith, r))
          (destroying q w v refl (called_once p.user_on_completed p.user_calls u n) z))
  ends-Stage p (destroying q w v d n z) =
      skip-Stage (p.started && not p.done) _ _ (ground (arith, d)) (destroying q w v d n z)
  ends-Stage p (suspended q w v s d r c u n z) =
      step-Stage (p.started && not p.done) _ _ (ground (arith, s, d)) (
        step-Stage (not p.completion_posted && not p.running_on_executor) _ _ (ground (arith, r, c))
          (ended refl refl w v refl (called_once p.user_on_completed p.user_calls u n) z))
  ends-Stage p (ended q f w v d n z) =
      skip-Stage (p.started && not p.done) _ _ (ground (arith, d)) (ended q f w v d n z)
  ends-Stage p (over q w v d n z) =
      skip-Stage (p.started && not p.done) _ _ (ground (arith, d)) (over q w v d n z)

  -- The end of `wk_cb`, with nothing in between.
  returns-Stage : (p : WorkPromise) → Stage user p → Stage user (apply tests (apply leaves p))
  unfolding apply destroy_if_done leave_running
  returns-Stage p (posted q f w v s d r c u n z) = not_inside p w v (posted q f w v s d r c u n z)
  returns-Stage p (resumed q w v s d r c u n z) =
      inside p w (skip-Stage p.done _ _ d (suspended q refl refl s d refl c u n z))
  returns-Stage p (destroying q w v d n z) =
      inside p w (step-Stage p.done _ _ d (over q refl refl d n (ap suc z)))
  returns-Stage p (suspended q w v s d r c u n z) = not_inside p w v (suspended q w v s d r c u n z)
  returns-Stage p (ended q f w v d n z) = not_inside p w v (ended q f w v d n z)
  returns-Stage p (over q w v d n z) = not_inside p w v (over q w v d n z)

  tests-Stage : (p : WorkPromise) → Stage user p → Stage user (apply tests p)
  unfolding apply
  tests-Stage p k = skip-Stage p.leaving _ _ (at_rest p k) k

  -- An executor with one thread: nothing happens between the two last steps of `wk_cb`.
  abbrev pub Undivided : List Step → Type 0
  Undivided [] = Unit
  Undivided (takes ∷ ss) = Undivided ss
  Undivided (ends ∷ ss) = Undivided ss
  Undivided (tests ∷ ss) = Undivided ss
  Undivided (leaves ∷ []) = ⊥
  Undivided (leaves ∷ takes ∷ ss) = ⊥
  Undivided (leaves ∷ ends ∷ ss) = ⊥
  Undivided (leaves ∷ leaves ∷ ss) = ⊥
  Undivided (leaves ∷ tests ∷ ss) = Undivided ss

  stages : (ss : List Step) (p : WorkPromise) → Undivided ss → Stage user p → Stage user (run ss p)
  unfolding run
  stages [] p o k = k
  stages (takes ∷ ss) p o k = stages ss (apply takes p) o (takes-Stage p k)
  stages (ends ∷ ss) p o k = stages ss (apply ends p) o (ends-Stage p k)
  stages (tests ∷ ss) p o k = stages ss (apply tests p) o (tests-Stage p k)
  stages (leaves ∷ []) p o k = absurd o
  stages (leaves ∷ takes ∷ ss) p o k = absurd o
  stages (leaves ∷ ends ∷ ss) p o k = absurd o
  stages (leaves ∷ leaves ∷ ss) p o k = absurd o
  stages (leaves ∷ tests ∷ ss) p o k =
      stages ss (apply tests (apply leaves p)) o (returns-Stage p k)

  -- A coroutine that was posted to an executor with one thread, through any steps of the executor, of itself and of
  -- those that resume it: nothing comes between the reset of `_running_on_executor` and the test of `done` at the
  -- end of `wk_cb`. Its frame is destroyed at most once, and only after the end. Until then it is in the run queue,
  -- to be started or to be destroyed, or within `wk_cb`, or suspended and not ended. The user's callback is called
  -- once, at the end, and not before.
  pub run-Stage : (ss : List Step) → Undivided ss → Stage user (run ss (post_to user))
  unfolding post_to post prepare_for_post new_promise
  run-Stage ss o =
      stages ss (post_to user) o (posted refl refl refl refl refl refl refl refl refl refl refl)
