-- ===== src/FileIo/Reading.antt =====
-- What a read of a file returns and moves.
use co_wq.Prelude.{
  ℕ, ◌+◌, ◌≤◌, ◌<◌, ◌≡◌, refl, Bool, true, false, List, [], take, drop, length, if◌then◌else◌,
}
use co_wq.StreamSocket.{Errno, ecanceled, Received, got, not_got, is_again, count, minus_one}
use co_wq.FileIo.{FileKernel, ReadAwaiter, read_await_resume}

-- A read from `at`: it stores the bytes there, `len` at most, and none only at the end of the file.
abbrev pub Reads : List ℕ → ℕ → ℕ → Received → Type 0
Reads content len at (got bs) =
    (bs ≡ take (length bs) (drop at content))
    × (length bs ≤ len)
    × (0 < len → bs ≡ [] → drop at content ≡ [])
Reads content len at (not_got e) = Unit

abbrev pub bytes_read : Received → ℕ
bytes_read (got bs) = length bs
bytes_read (not_got e) = 0

-- A file that reads do not change, with a position that only `read` moves.
pub record ReadsFile {K : Type 0} (os : FileKernel K) : Type 0 where
  pub content : K → List ℕ
  pub position : K → ℕ
  pub reads : (len : ℕ) (k : K) → Reads (content k) len (position k) (os.read len k).0
  pub moves :
      (len : ℕ) (k : K) → position (os.read len k).1 ≡ position k + bytes_read (os.read len k).0
  pub keeps : (len : ℕ) (k : K) → content (os.read len k).1 ≡ content k
  pub reads_at : (len ofs : ℕ) (k : K) → Reads (content k) len ofs (os.pread len ofs k).0
  pub stays : (len ofs : ℕ) (k : K) → position (os.pread len ofs k).1 ≡ position k
  pub keeps_at : (len ofs : ℕ) (k : K) → content (os.pread len ofs k).1 ≡ content k

module _ {K : Type 0} (os : FileKernel K) (file : ReadsFile os) where
  -- Where an awaiter reads.
  abbrev pub place : ReadAwaiter K → ℕ
  place a = if a.use_offset then a.ofs else file.position a.kernel

  -- A read of `len` bytes from `at` that has not been done.
  pub record Waits (len at : ℕ) (content : List ℕ) (a : ReadAwaiter K) : Type 0 where
    pub opened : a.is_open ≡ true
    pub same_len : a.len ≡ len
    pub there : place a ≡ at
    pub unchanged : file.content a.kernel ≡ content

  -- And one that is over.
  pub data Over (len at : ℕ) (content : List ℕ) (a : ReadAwaiter K) : Type 0 where
    has_read :
        Reads content len at (got a.buf)
        → place a ≡ at + length a.buf
        → file.content a.kernel ≡ content
        → ((closed : Bool) → read_await_resume closed a ≡ count (length a.buf))
        → Over len at content a
    has_failed :
        (e : Errno)
        → is_again e ≡ false
        → place a ≡ at
        → file.content a.kernel ≡ content
        → ((closed : Bool)
            → read_await_resume closed a ≡ (if closed then minus_one ecanceled else minus_one e))
        → Over len at content a

  module _ (len at : ℕ) (content : List ℕ) where
    abbrev place_after : ReadAwaiter K → ℕ → K → ℕ
    place_after a n k = if a.use_offset then a.ofs + n else file.position k

    called :
        (b : Bool) (a : ReadAwaiter K)
        → (let (r, k) = if b then os.pread a.len a.ofs a.kernel else os.read a.len a.kernel in
            Reads (file.content a.kernel) a.len (if b then a.ofs else file.position a.kernel) r
            × ((if b then a.ofs + bytes_read r else file.position k)
                ≡ (if b then a.ofs else file.position a.kernel) + bytes_read r)
            × (file.content k ≡ file.content a.kernel))
    called true a = (file.reads_at a.len a.ofs a.kernel, refl, file.keeps_at a.len a.ofs a.kernel)
    called false a =
        (file.reads a.len a.kernel, file.moves a.len a.kernel, file.keeps a.len a.kernel)
