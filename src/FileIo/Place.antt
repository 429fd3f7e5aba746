-- ===== src/FileIo/Place.antt =====
-- The place of a read or a write after a call: the offset or the position.
use co_wq.Prelude.{ℕ, ◌+◌, ◌≡◌, refl, Bool, true, false, if◌then◌else◌, arith}

pub moved :
    (b : Bool) (ofs n p : ℕ)
    → (if b then (if b then ofs + n else ofs) else p) ≡ (if b then ofs + n else p)
moved true ofs n p = refl
moved false ofs n p = refl

pub unmoved :
    (b : Bool) (ofs p m : ℕ) → (if b then ofs + 0 else p) ≡ m + 0 → (if b then ofs else p) ≡ m
unmoved true ofs p m e = omega arith
unmoved false ofs p m e = omega arith
