-- ===== src/FileIo/Examples.antt =====
-- A file at concrete inputs: a read with an offset that has to wait once, a read of a file that was closed, and a
-- write in two parts.
use co_wq.Prelude.{
  ℕ, zero, suc, ◌+◌, ◌≤◌, ◌<◌, ◌≡◌, refl, ap, Bool, true, false, none, some, List, [], ◌∷◌, take,
  drop, length, leb, if◌then◌else◌, arith,
}
use co_wq.Serial.{Drain, lock_acquired, drive, resume, returned, drive_cb}
use co_wq.StreamSocket.{eagain, Received, got, not_got, Sent, took, not_took}
use co_wq.StreamSocket.Send.Delivery.{number_of}
use co_wq.FileIo.{
  FileKernel, ReadAwaiter, read_awaiter, read_attempt_once, WriteAwaiter, write_awaiter,
}
use co_wq.FileIo.Reading.{Reads, bytes_read, ReadsFile}
use co_wq.FileIo.Writing.{laid, WritesFile}

abbrev text : List ℕ
text = 10 ∷ 11 ∷ 12 ∷ []

-- The position, and one entry for each call that finds nothing yet.
abbrev Reader : Type 0
Reader = ℕ × List (Unit {0})

abbrev read_at : ℕ → ℕ → ℕ × List (Unit {0}) → Bool → Received × (ℕ × List (Unit {0}))
read_at len at (pos, u ∷ us) moves = (not_got eagain, (pos, us))
read_at len at (pos, []) moves =
    let bs = take len (drop at text) in (got bs, (if moves then pos + length bs else pos, []))

abbrev reading : FileKernel Reader
reading = record {
  read = λ len k. read_at len k.0 k true;
  pread = λ len ofs k. read_at len ofs k false;
  write = λ bs k. (took 0, k);
  pwrite = λ bs ofs k. (took 0, k);
}

take-length : (n : ℕ) (l : List ℕ) → take n l ≡ take (length (take n l)) l
take-length zero l = refl
take-length (suc n) [] = refl
take-length (suc n) (x ∷ xs) = ap (◌∷◌ x) (take-length n xs)

length-take-le : (n : ℕ) (l : List ℕ) → length (take n l) ≤ n
length-take-le zero l = omega arith
length-take-le (suc n) [] = omega arith
length-take-le (suc n) (x ∷ xs) = omega (arith, length-take-le n xs)

take-nil_inv : (n : ℕ) (l : List ℕ) → 0 < n → take n l ≡ [] → l ≡ []
take-nil_inv zero l h e = elim h [ ]
take-nil_inv (suc n) [] h e = refl
take-nil_inv (suc n) (x ∷ xs) h e = cc

read_at-Reads :
    (len at : ℕ) (k : Reader) (moves : Bool) → Reads text len at (read_at len at k moves).0
read_at-Reads len at (pos, []) moves =
    let l = drop at text in (take-length len l, length-take-le len l, take-nil_inv len l)
read_at-Reads len at (pos, u ∷ us) moves = tt

read_at-moves :
    (len at : ℕ) (k : Reader)
    → (read_at len at k true).1.0 ≡ k.0 + bytes_read (read_at len at k true).0
read_at-moves len at (pos, []) = refl
read_at-moves len at (pos, u ∷ us) = omega arith

read_at-stays : (len at : ℕ) (k : Reader) → (read_at len at k false).1.0 ≡ k.0
read_at-stays len at (pos, []) = refl
read_at-stays len at (pos, u ∷ us) = refl

reading-ReadsFile : ReadsFile reading
reading-ReadsFile = record {
  content = λ k. text;
  position = λ k. k.0;
  reads = λ len k. read_at-Reads len k.0 k true;
  moves = λ len k. read_at-moves len k.0 k;
  keeps = λ len k. refl;
  reads_at = λ len ofs k. read_at-Reads len ofs k false;
  stays = λ len ofs k. read_at-stays len ofs k;
  keeps_at = λ len ofs k. refl;
}

abbrev reader : Drain (ReadAwaiter Reader)
reader = record {
  work = read_awaiter 5 (some 1) eagain (0, tt ∷ []);
  func = lock_acquired;
  waits = [];
  resumes = 0;
  slot = record { q = record { locked = true; waiters = [] }; posted = 1 ∷ [] };
}

abbrev waiting_reader : Drain (ReadAwaiter Reader)
waiting_reader = record reader {
  work = read_awaiter 5 (some 1) eagain (0, []);
  func = drive;
  waits = true ∷ [];
}

abbrev has_read_two : Drain (ReadAwaiter Reader)
has_read_two = record waiting_reader {
  work = record (read_awaiter 5 (some 1) eagain (0, [])) {
    buf = 11 ∷ 12 ∷ [];
    nrd = some 2;
    ofs = 3;
  };
  func = resume;
  resumes = 1;
  slot = record { q = record { locked = false; waiters = [] }; posted = 1 ∷ [] };
}

-- The reader waited, and then the file was closed.
abbrev closed_reader : Drain (ReadAwaiter Reader)
closed_reader = record waiting_reader {
  work = record (read_awaiter 5 (some 1) eagain (0, [])) { is_open = false };
}

-- `errno` still holds `EAGAIN` from the call before: the reader registers once more and is not resumed.
closed_reader_waits :
    drive_cb (read_attempt_once reading) 1 closed_reader
    ≡ returned (record closed_reader { func = drive; waits = true ∷ false ∷ [] })
unfolding drive_cb read_attempt_once read_awaiter
closed_reader_waits = refl

-- A file by its places, its position, and how much each of the next calls takes.
record Disk : Type 0 where
  cells : ℕ → ℕ
  position : ℕ
  rooms : List ℕ

abbrev at_most : ℕ → List ℕ → ℕ
at_most room bs = if leb room (length bs) then room else length bs

abbrev write_on : List ℕ → ℕ → List ℕ → Bool → Disk → Sent × Disk
write_on bs at [] moves k = (took 0, k)
write_on bs at (zero ∷ rooms) moves k = (not_took eagain, record k { rooms = rooms })
write_on bs at (suc room ∷ rooms) moves k =
    let n = at_most (suc room) bs in
    (
      took n,
      record {
        cells = laid at n bs k.cells;
        position = if moves then k.position + n else k.position;
        rooms = rooms;
      },
    )

abbrev disk : FileKernel Disk
disk = record {
  read = λ len k. (got [], k);
  pread = λ len ofs k. (got [], k);
  write = λ bs k. write_on bs k.position k.rooms true k;
  pwrite = λ bs ofs k. write_on bs ofs k.rooms false k;
}

write_on-at_most :
    (bs : List ℕ) (at : ℕ) (rooms : List ℕ) (moves : Bool) (k : Disk)
    → number_of (write_on bs at rooms moves k).0 ≤ length bs
write_on-at_most bs at [] moves k = omega arith
write_on-at_most bs at (zero ∷ rooms) moves k = omega arith
write_on-at_most bs at (suc room ∷ rooms) moves k = ground arith

nothing_laid : (at i : ℕ) (bs : List ℕ) (c : ℕ → ℕ) → c i ≡ laid at 0 bs c i
nothing_laid at i bs c = ground arith

write_on-lays :
    (bs : List ℕ) (at : ℕ) (rooms : List ℕ) (moves : Bool) (k : Disk) (i : ℕ)
    → (write_on bs at rooms moves k).1.cells i
      ≡ laid at (number_of (write_on bs at rooms moves k).0) bs k.cells i
write_on-lays bs at [] moves k i = nothing_laid at i bs k.cells
write_on-lays bs at (zero ∷ rooms) moves k i = nothing_laid at i bs k.cells
write_on-lays bs at (suc room ∷ rooms) moves k i = refl

write_on-moves :
    (bs : List ℕ) (at : ℕ) (rooms : List ℕ) (k : Disk)
    → (write_on bs at rooms true k).1.position
      ≡ k.position + number_of (write_on bs at rooms true k).0
write_on-moves bs at [] k = omega arith
write_on-moves bs at (zero ∷ rooms) k = omega arith
write_on-moves bs at (suc room ∷ rooms) k = refl

disk-WritesFile : WritesFile disk
disk-WritesFile = record {
  content = λ k. k.cells;
  position = λ k. k.position;
  at_most = λ bs k. write_on-at_most bs k.position k.rooms true k;
  lays = λ bs k i. write_on-lays bs k.position k.rooms true k i;
  moves = λ bs k. write_on-moves bs k.position k.rooms k;
  at_most_at = λ bs ofs k. write_on-at_most bs ofs k.rooms false k;
  lays_at = λ bs ofs k i. write_on-lays bs ofs k.rooms false k i;
}

abbrev blank : ℕ → ℕ
blank i = 0

-- Room for one byte, and then for more.
abbrev empty_disk : Disk
empty_disk = record { cells = blank; position = 4; rooms = 1 ∷ 5 ∷ [] }

abbrev writer : Drain (WriteAwaiter Disk)
writer = record {
  work = write_awaiter (7 ∷ 8 ∷ 9 ∷ []) none empty_disk;
  func = lock_acquired;
  waits = [];
  resumes = 0;
  slot = record { q = record { locked = true; waiters = [] }; posted = 1 ∷ [] };
}

abbrev wrote_three : Drain (WriteAwaiter Disk)
wrote_three = record writer {
  work =
      record (write_awaiter (7 ∷ 8 ∷ 9 ∷ []) none (record {
        cells = laid 5 2 (8 ∷ 9 ∷ []) (laid 4 1 (7 ∷ 8 ∷ 9 ∷ []) blank);
        position = 7;
        rooms = [];
      })) { done = 3 };
  func = resume;
  resumes = 1;
  slot = record { q = record { locked = false; waiters = [] }; posted = 1 ∷ [] };
}
