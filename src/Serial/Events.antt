-- ===== src/Serial/Events.antt =====
-- The whole life of an awaiter of the two-phase loop, over its events.
use co_wq.Prelude.{
  ℕ, zero, suc, ◌≡◌, refl, ap, ◌∙◌, ◌⊎◌, inl, inr, Bool, true, false, List, [], ◌∷◌, ◌++◌,
  append_assoc,
}
use co_wq.Serial.{
  serial_release, resume, drive, Attempt, progress, complete, would_block, after_attempt, Drain,
  Call, returned, lock_acquired_cb, drive_cb,
}
use co_wq.Serial.Draining.{Outcome, moved-Outcome}

abbrev pub again_waits : ℕ → List Bool
again_waits zero = []
again_waits (suc n) = again_waits n ++ false ∷ []

module _ {A : Type 0} (attempt_once : A → Attempt × A) where
  -- An awaiter got its slot, and `events` of the events it registered for have come. An event calls
  -- `func`, which is `drive_cb` only while the awaiter waits.
  pub data Life (d0 : Drain A) : ℕ → Drain A → Type 0 where
    acquired :
        {d : Drain A} (fuel : ℕ) → lock_acquired_cb attempt_once fuel d0 ≡ returned d → Life d0 0 d
    event :
        {events : ℕ} {d d' : Drain A} (fuel : ℕ)
        → Life d0 events d
        → d.func ≡ drive
        → drive_cb attempt_once fuel d ≡ returned d'
        → Life d0 (suc events) d'

-- Where an awaiter is in its life: over, or at its next wait.
pub record Over {A : Type 0} (d0 d : Drain A) : Type 0 where
  pub func : d.func ≡ resume
  pub resumes : d.resumes ≡ suc d0.resumes
  pub slot : d.slot ≡ serial_release d0.slot

pub record Pending {A : Type 0} (events : ℕ) (d0 d : Drain A) : Type 0 where
  pub func : d.func ≡ drive
  pub resumes : d.resumes ≡ d0.resumes
  pub slot : d.slot ≡ d0.slot
  pub waits : d.waits ≡ d0.waits ++ true ∷ again_waits events

-- The outcome of any call that returns, whatever its fuel.
module _ {A : Type 0} (attempt_once : A → Attempt × A) where
  after_attempt-Outcome :
      (first : Bool) (d : Drain A) (work : A) (r : Attempt) (again : Call A) (d' : Drain A)
      → (again ≡ returned d' → Outcome first d d')
      → after_attempt attempt_once first r (record d { work = work }) again ≡ returned d'
      → Outcome first d d'
  after_attempt-Outcome first d work progress again d' f e = f e
  after_attempt-Outcome first d work complete again d' f e =
      let same : d' ≡ record d {
        work = work;
        func = resume;
        resumes = suc d.resumes;
        slot = serial_release d.slot;
      } =
        cc e in
      rw same (inl (record { func = refl; resumes = refl; slot = refl; waits = refl }))
  after_attempt-Outcome first d work would_block again d' f e =
      let same : d' ≡ record d { work = work; func = drive; waits = d.waits ++ first ∷ [] } =
        cc e in
      rw same (inr (record { func = refl; resumes = refl; slot = refl; waits = refl }))

  lock_acquired_cb-Outcome :
      (fuel : ℕ) (d : Drain A) {d' : Drain A}
      → lock_acquired_cb attempt_once fuel d ≡ returned d'
      → Outcome true d d'
  unfolding lock_acquired_cb
  lock_acquired_cb-Outcome zero d e = cc
  lock_acquired_cb-Outcome (suc fuel) d {d'} e =
      let w = (attempt_once d.work).1 in
      after_attempt-Outcome true d w (attempt_once d.work).0 _ d'
        (λ p.
          moved-Outcome attempt_once true d w d'
            (lock_acquired_cb-Outcome fuel (record d { work = w }) p))
        e

  drive_cb-Outcome :
      (fuel : ℕ) (d : Drain A) {d' : Drain A}
      → drive_cb attempt_once fuel d ≡ returned d'
      → Outcome false d d'
  unfolding drive_cb
  drive_cb-Outcome zero d e = cc
  drive_cb-Outcome (suc fuel) d {d'} e =
      let w = (attempt_once d.work).1 in
      after_attempt-Outcome false d w (attempt_once d.work).0 _ d'
        (λ p.
          moved-Outcome attempt_once false d w d' (drive_cb-Outcome fuel (record d { work = w }) p))
        e

  -- However many events it takes, the coroutine is resumed at most once, and its slot released at the
  -- same time and no earlier. Until then the awaiter has registered once for each event, with `first`
  -- only the first time.
  pub Life-once :
      (d0 d : Drain A) (events : ℕ)
      → Life attempt_once d0 events d
      → Over d0 d ⊎ Pending events d0 d
  Life-once d0 d events (acquired fuel e) = elim (lock_acquired_cb-Outcome fuel d0 e) [
    | inl c ↦ inl (record { func = c.func; resumes = c.resumes; slot = c.slot })
    | inr w ↦ inr (record { func = w.func; resumes = w.resumes; slot = w.slot; waits = w.waits })
  ]
  Life-once d0 d events (event {events = n} {d = d1} fuel l waits e) = elim (Life-once d0 d1 n l) [
    | inl over ↦ cc (over.func, waits)
    | inr p ↦ elim (drive_cb-Outcome fuel d1 e) [
      | inl c ↦ inl (record {
        func = c.func;
        resumes = c.resumes ∙ ap suc p.resumes;
        slot = c.slot ∙ ap serial_release p.slot;
      })
      | inr w ↦ inr (record {
        func = w.func;
        resumes = w.resumes ∙ p.resumes;
        slot = w.slot ∙ p.slot;
        waits =
            w.waits
            ∙ ap (λ l. l ++ false ∷ []) p.waits
            ∙ append_assoc d0.waits (true ∷ again_waits n) (false ∷ []);
      })
    ]
  ]
