-- ===== src/Serial/Draining.antt =====
-- The two-phase loop ends, and resumes its coroutine once.
use co_wq.Prelude.{
  ℕ, zero, suc, ◌<◌, ◌≡◌, refl, ◌⊎◌, inl, inr, Bool, true, false, [], ◌∷◌, ◌++◌, arith,
}
use co_wq.Serial.{
  serial_release, resume, drive, Attempt, progress, complete, would_block, Drain, Call, returned,
  lock_acquired_cb, drive_cb, after_attempt,
}

-- A call that came to the end of the operation: it gave the slot back and resumed the coroutine.
pub record Completed {A : Type 0} (d d' : Drain A) : Type 0 where
  pub func : d'.func ≡ resume
  pub resumes : d'.resumes ≡ suc d.resumes
  pub slot : d'.slot ≡ serial_release d.slot
  pub waits : d'.waits ≡ d.waits

-- A call that waits for an event: it keeps the slot, and registered for one event.
pub record Waiting {A : Type 0} (first : Bool) (d d' : Drain A) : Type 0 where
  pub func : d'.func ≡ drive
  pub resumes : d'.resumes ≡ d.resumes
  pub slot : d'.slot ≡ d.slot
  pub waits : d'.waits ≡ d.waits ++ first ∷ []

abbrev pub Outcome : {A : Type 0} → Bool → Drain A → Drain A → Type 0
Outcome first d d' = Completed d d' ⊎ Waiting first d d'

-- The call returned, with one of the two outcomes.
pub record Ends {A : Type 0} (first : Bool) (d : Drain A) (call : Call A) : Type 0 where
  pub after : Drain A
  pub result : call ≡ returned after
  pub outcome : Outcome first d after

-- What the loop needs of `attempt_once`: progress uses something up.
pub record Finite {A : Type 0} (attempt_once : A → Attempt × A) : Type 0 where
  pub left : A → ℕ
  pub less : (a : A) → (attempt_once a).0 ≡ progress → left (attempt_once a).1 < left a

module _ {A : Type 0} (attempt_once : A → Attempt × A) where
  after_attempt-Ends :
      (first : Bool) (d : Drain A) (work : A) (r : Attempt) (again : Call A)
      → (r ≡ progress → Ends first d again)
      → Ends first d (after_attempt attempt_once first r (record d { work = work }) again)
  after_attempt-Ends first d work progress again e = e refl
  after_attempt-Ends first d work complete again e = record {
    after = _;
    result = refl;
    outcome = inl (record { func = refl; resumes = refl; slot = refl; waits = refl });
  }
  after_attempt-Ends first d work would_block again e = record {
    after = _;
    result = refl;
    outcome = inr (record { func = refl; resumes = refl; slot = refl; waits = refl });
  }

  pub moved-Outcome :
      (first : Bool) (d : Drain A) (work : A) (d' : Drain A)
      → Outcome first (record d { work = work }) d'
      → Outcome first d d'
  moved-Outcome first d work d' o = elim o [
    | inl c ↦ inl (record { func = c.func; resumes = c.resumes; slot = c.slot; waits = c.waits })
    | inr w ↦ inr (record { func = w.func; resumes = w.resumes; slot = w.slot; waits = w.waits })
  ]

  moved-Ends :
      (first : Bool) (d : Drain A) (work : A) (call : Call A)
      → Ends first (record d { work = work }) call
      → Ends first d call
  moved-Ends first d work call e = record {
    after = e.after;
    result = e.result;
    outcome = moved-Outcome first d work e.after e.outcome;
  }

  -- With more fuel than `attempt_once` can make progress, the first call of the loop returns. Either
  -- the operation is complete, the slot is released and the coroutine resumed, once each, or the
  -- awaiter keeps the slot and has registered for its first event.
  pub lock_acquired_cb-Ends :
      (f : Finite attempt_once) (fuel : ℕ) (d : Drain A)
      → f.left d.work < fuel
      → Ends true d (lock_acquired_cb attempt_once fuel d)
  unfolding lock_acquired_cb
  lock_acquired_cb-Ends f zero d l = absurd (omega arith)
  lock_acquired_cb-Ends f (suc fuel) d l =
      let w = (attempt_once d.work).1 in
      after_attempt-Ends true d w (attempt_once d.work).0
        (lock_acquired_cb attempt_once fuel (record d { work = w }))
        (λ p.
          moved-Ends true d w _
            (lock_acquired_cb-Ends f fuel (record d { work = w }) (omega (arith, f.less d.work p))))

  -- The same of a call after an event: it returns, and either completes the operation once or keeps
  -- the slot and has registered for one more event.
  pub drive_cb-Ends :
      (f : Finite attempt_once) (fuel : ℕ) (d : Drain A)
      → f.left d.work < fuel
      → Ends false d (drive_cb attempt_once fuel d)
  unfolding drive_cb
  drive_cb-Ends f zero d l = absurd (omega arith)
  drive_cb-Ends f (suc fuel) d l =
      let w = (attempt_once d.work).1 in
      after_attempt-Ends false d w (attempt_once d.work).0
        (drive_cb attempt_once fuel (record d { work = w }))
        (λ p.
          moved-Ends false d w _
            (drive_cb-Ends f fuel (record d { work = w }) (omega (arith, f.less d.work p))))
