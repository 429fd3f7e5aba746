-- ===== src/Serial/Examples.antt =====
-- The serial queue at concrete inputs: awaiters 1, 2 and 3 ask for the slot, and 1 gives it back. An
-- awaiter whose attempts follow a script makes progress, waits, and completes.
use co_wq.Prelude.{◌<◌, ◌≡◌, refl, ◌⊎◌, true, List, [], ◌∷◌, length, arith}
use co_wq.Serial.{
  Slot, serial_queue_init, serial_acquire_or_enqueue, serial_release, release_to, Attempt, progress,
  complete, would_block, move_all, serial_collect_waiters, Drain, lock_acquired, drive,
  lock_acquired_cb,
}
use co_wq.Serial.Turns.{Turn, opened, arrives, gives_back, collects, IsFair, Turn-IsFair}
use co_wq.Serial.Draining.{Finite}
use co_wq.Serial.Events.{Life, acquired, Over, Pending, Life-once}

abbrev unused : Slot
unused = record { q = serial_queue_init; posted = [] }

abbrev three_came : Slot
three_came =
    (serial_acquire_or_enqueue 3
      (serial_acquire_or_enqueue 2 (serial_acquire_or_enqueue 1 unused).1).1).1

abbrev handed_on : Slot
handed_on = serial_release three_came

handed_on_order : handed_on.posted ≡ 1 ∷ 2 ∷ []
unfolding serial_acquire_or_enqueue serial_queue_init serial_release release_to
handed_on_order = refl

-- The socket is closed while 2 holds the slot, and 4 comes after that.
history : Turn (record handed_on { q = serial_queue_init }) (1 ∷ 2 ∷ 3 ∷ []) (3 ∷ []) 1 1
unfolding serial_acquire_or_enqueue serial_queue_init serial_release release_to
    serial_collect_waiters move_all
history =
    collects serial_queue_init (3 ∷ [])
      (gives_back (arrives 3 (arrives 2 (arrives 1 opened))) (omega arith)) refl

Turn-IsFair_example :
    IsFair (record handed_on { q = serial_queue_init }) (1 ∷ 2 ∷ 3 ∷ []) (3 ∷ []) 1 1
Turn-IsFair_example =
    Turn-IsFair (record handed_on { q = serial_queue_init }) (1 ∷ 2 ∷ 3 ∷ []) (3 ∷ []) 1 1 history

-- 2 has not released the slot, and 4 gets it too.
held-twice :
    (serial_acquire_or_enqueue 4 (record handed_on { q = serial_queue_init })).0 ≡ true
    × (serial_acquire_or_enqueue 4 (record handed_on { q = serial_queue_init })).1.posted
      ≡ 1 ∷ 2 ∷ 4 ∷ []
unfolding serial_acquire_or_enqueue serial_queue_init serial_release release_to
held-twice = (refl, refl)

abbrev script : List Attempt → Attempt × List Attempt
script [] = (complete, [])
script (r ∷ rs) = (r, rs)

script_less : (a : List Attempt) → (script a).0 ≡ progress → length (script a).1 < length a
script_less [] e = cc
script_less (r ∷ rs) e = omega arith

script-Finite : Finite script
script-Finite = record { left = length; less = script_less }

abbrev sender : Drain (List Attempt)
sender = record {
  work = progress ∷ would_block ∷ progress ∷ [];
  func = lock_acquired;
  waits = [];
  resumes = 0;
  slot = three_came;
}

abbrev waiting_sender : Drain (List Attempt)
waiting_sender = record sender { work = progress ∷ []; func = drive; waits = true ∷ [] }

life : Life script sender 0 waiting_sender
unfolding lock_acquired_cb
life = acquired 4 refl

Life-once_example : Over sender waiting_sender ⊎ Pending 0 sender waiting_sender
Life-once_example = Life-once script sender waiting_sender 0 life
