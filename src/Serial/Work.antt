-- ===== src/Serial/Work.antt =====
-- What every attempt keeps holds through the life of a two-phase awaiter, and what the last attempt
-- brings about holds when it is over. The awaiters of the sockets and files use these rules.
use co_wq.Prelude.{ℕ, zero, suc, ◌≡◌, refl, subst, Bool, true, false, [], ◌∷◌, ◌++◌, if◌then◌else◌}
use co_wq.Serial.{
  Func, lock_acquired, resume, drive, other, Attempt, progress, complete, would_block, Drain, Call,
  returned, after_attempt, lock_acquired_cb, drive_cb, serial_release,
}
use co_wq.Serial.Events.{Life, acquired, event}

-- What an attempt leaves: `Done` where it completes, and `Kept` where another one may follow.
abbrev pub After : {A : Type 0} → (Kept Done : A → Type 0) → Attempt × A → Type 0
After Kept Done (progress, a) = Kept a
After Kept Done (complete, a) = Done a
After Kept Done (would_block, a) = Kept a

-- Split on a test, of the whole result or of the attempt's answer.
module _ {A : Type 0} (Kept Done : A → Type 0) where
  pub if-After :
      (b : Bool) (x y : Attempt × A)
      → (b ≡ true → After Kept Done x)
      → (b ≡ false → After Kept Done y)
      → After Kept Done (if b then x else y)
  if-After true x y f g = f refl
  if-After false x y f g = g refl

  pub answer-After :
      (b : Bool) (r s : Attempt) (a : A)
      → (b ≡ true → After Kept Done (r, a))
      → (b ≡ false → After Kept Done (s, a))
      → After Kept Done (if b then r else s, a)
  answer-After true r s a f g = f refl
  answer-After false r s a f g = g refl

-- Where an awaiter stands: its coroutine was resumed and its work is done, or it waits with sound work.
abbrev pub StandsBy : {A : Type 0} → (Kept Done : A → Type 0) → Func → A → Type 0
StandsBy Kept Done resume a = Done a
StandsBy Kept Done drive a = Kept a
StandsBy Kept Done lock_acquired a = ⊥
StandsBy Kept Done other a = ⊥

abbrev pub Stands : {A : Type 0} → (Kept Done : A → Type 0) → Drain A → Type 0
Stands Kept Done d = StandsBy Kept Done d.func d.work

module _ {A : Type 0} (attempt_once : A → Attempt × A) (Kept Done : A → Type 0)
    (rule : (a : A) → Kept a → After Kept Done (attempt_once a)) where
  after_attempt-Stands :
      (first : Bool) (d : Drain A) (r : Attempt) (work : A) (again : Call A) (d' : Drain A)
      → After Kept Done (r, work)
      → (Kept work → again ≡ returned d' → Stands Kept Done d')
      → after_attempt attempt_once first r (record d { work = work }) again ≡ returned d'
      → Stands Kept Done d'
  after_attempt-Stands first d progress work again d' k f e = f k e
  after_attempt-Stands first d complete work again d' k f e =
      let same : record d {
        work = work;
        func = resume;
        resumes = suc d.resumes;
        slot = serial_release d.slot;
      }
          ≡ d' =
        cc e in
      subst (Stands Kept Done) same k
  after_attempt-Stands first d would_block work again d' k f e =
      let same : record d { work = work; func = drive; waits = d.waits ++ first ∷ [] } ≡ d' =
        cc e in
      subst (Stands Kept Done) same k

  lock_acquired_cb-Stands :
      (fuel : ℕ) (d d' : Drain A)
      → Kept d.work
      → lock_acquired_cb attempt_once fuel d ≡ returned d'
      → Stands Kept Done d'
  unfolding lock_acquired_cb
  lock_acquired_cb-Stands zero d d' k e = cc
  lock_acquired_cb-Stands (suc fuel) d d' k e =
      let w = (attempt_once d.work).1 in
      after_attempt-Stands true d (attempt_once d.work).0 w _ d' (rule d.work k)
        (λ kept f. lock_acquired_cb-Stands fuel (record d { work = w }) d' kept f) e

  drive_cb-Stands :
      (fuel : ℕ) (d d' : Drain A)
      → Kept d.work
      → drive_cb attempt_once fuel d ≡ returned d'
      → Stands Kept Done d'
  unfolding drive_cb
  drive_cb-Stands zero d d' k e = cc
  drive_cb-Stands (suc fuel) d d' k e =
      let w = (attempt_once d.work).1 in
      after_attempt-Stands false d (attempt_once d.work).0 w _ d' (rule d.work k)
        (λ kept f. drive_cb-Stands fuel (record d { work = w }) d' kept f) e

  drive-Kept : (f : Func) (a : A) → f ≡ drive → StandsBy Kept Done f a → Kept a
  drive-Kept drive a e s = s
  drive-Kept resume a e s = cc
  drive-Kept lock_acquired a e s = cc
  drive-Kept other a e s = cc

  -- Through any number of events.
  pub Life-Stands :
      (d0 d : Drain A) (events : ℕ)
      → Kept d0.work
      → Life attempt_once d0 events d
      → Stands Kept Done d
  Life-Stands d0 d events k (acquired fuel e) = lock_acquired_cb-Stands fuel d0 d k e
  Life-Stands d0 d events k (event {events = n} {d = d1} fuel l waits e) =
      drive_cb-Stands fuel d1 d (drive-Kept d1.func d1.work waits (Life-Stands d0 d1 n k l)) e
