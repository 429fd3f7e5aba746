-- ===== src/FileIo.antt =====
-- io/file_io.hpp, as built on Linux: reading and writing of a file as awaiters of the two-phase loop, and the closing
-- of the file. The kernel is a parameter, the state of one file's calls.
mod Place
pub mod Reading
pub mod Writing
pub mod Closing
mod Examples
use co_wq.Prelude.{
  ℕ, zero, suc, ◌+◌, ◌-◌, Bool, true, false, not, ◌&&◌, Option, none, some, List, [], ◌∷◌, ltb,
  ◌==◌, if◌then◌else◌, length, drop,
}
use co_wq.Serial.{
  SerialQueue, serial_queue_init, serial_collect_waiters, Executor, serial_post_pending, Attempt,
  complete, would_block,
}
use co_wq.EpollReactor.{Epoll, EpollReactor, add_fd, remove_fd}
use co_wq.StreamSocket.{
  Errno, ecanceled, Received, got, not_got, Sent, took, not_took, is_again, Return, count,
  minus_one,
}

-- `read`, `pread`, `write` and `pwrite` on one open file.
pub record FileKernel (K : Type 0) : Type 0 where
  pub read : ℕ → K → Received × K
  pub pread : ℕ → ℕ → K → Received × K
  pub write : List ℕ → K → Sent × K
  pub pwrite : List ℕ → ℕ → K → Sent × K

-- `ofs` is what `pofs` points to, which nobody else changes meanwhile, and `nrd` the last result, `none` for -1.
-- `buf` holds what the last call stored. `is_open` tells whether the file has a descriptor, and `err` is
-- the `errno` of the thread.
pub record ReadAwaiter (K : Type 0) : Type 0 where
  pub len : ℕ
  pub buf : List ℕ
  pub nrd : Option ℕ
  pub ofs : ℕ
  pub use_offset : Bool
  pub is_open : Bool
  pub err : Errno
  pub kernel : K

-- The constructors: `read`, and `pread` where an offset is given.
unfoldable pub read_awaiter : {K : Type 0} → ℕ → Option ℕ → Errno → K → ReadAwaiter K
read_awaiter len none err k = record {
  len = len;
  buf = [];
  nrd = none;
  ofs = 0;
  use_offset = false;
  is_open = true;
  err = err;
  kernel = k;
}
read_awaiter len (some ofs) err k = record {
  len = len;
  buf = [];
  nrd = none;
  ofs = ofs;
  use_offset = true;
  is_open = true;
  err = err;
  kernel = k;
}

-- The results of `read` and `pread`.
abbrev pub on_read : {K : Type 0} → ReadAwaiter K → Received → ReadAwaiter K
on_read a (got bs) = record a {
  buf = bs;
  nrd = some (length bs);
  ofs = if a.use_offset then a.ofs + length bs else a.ofs;
}
on_read a (not_got e) = record a { nrd = none; err = e }

abbrev pub judge : {K : Type 0} → Option ℕ → ReadAwaiter K → Attempt × ReadAwaiter K
judge (some n) a = (complete, a)
judge none a = (if is_again a.err then would_block else complete, a)

module _ {K : Type 0} (os : FileKernel K) where
  unfoldable pub try_read : ReadAwaiter K → ReadAwaiter K
  try_read a =
      let (r, k) = if a.use_offset then os.pread a.len a.ofs a.kernel else os.read a.len a.kernel in
      if not a.is_open then record a { nrd = none } else on_read (record a { kernel = k }) r

  unfoldable pub read_attempt_once : ReadAwaiter K → Attempt × ReadAwaiter K
  unfolding try_read
  read_attempt_once a = let a' = try_read a in judge a'.nrd a'

abbrev pub read_return : Bool → Option ℕ → Errno → Return
read_return closed (some n) e = count n
read_return closed none e = if closed then minus_one ecanceled else minus_one e

unfoldable pub read_await_resume : {K : Type 0} → Bool → ReadAwaiter K → Return
read_await_resume closed a = read_return closed a.nrd a.err

-- `done` bytes of `buf` are written.
pub record WriteAwaiter (K : Type 0) : Type 0 where
  pub buf : List ℕ
  pub done : ℕ
  pub ofs : ℕ
  pub use_offset : Bool
  pub kernel : K

unfoldable pub write_awaiter : {K : Type 0} → List ℕ → Option ℕ → K → WriteAwaiter K
write_awaiter b none k = record { buf = b; done = 0; ofs = 0; use_offset = false; kernel = k }
write_awaiter b (some ofs) k = record {
  buf = b;
  done = 0;
  ofs = ofs;
  use_offset = true;
  kernel = k;
}

module _ {K : Type 0} (os : FileKernel K) where
  abbrev pub write_call : WriteAwaiter K → Sent × K
  write_call a =
      if a.use_offset
      then os.pwrite (drop a.done a.buf) a.ofs a.kernel
      else os.write (drop a.done a.buf) a.kernel

  -- The rest of a round behind the call, with the next rounds as `again`.
  unfoldable pub after_write :
      (WriteAwaiter K → Attempt × WriteAwaiter K) → WriteAwaiter K → Sent → Attempt × WriteAwaiter K
  after_write again a (took zero) = (complete, a)
  after_write again a (took (suc n)) =
      again
        (record a { done = a.done + suc n; ofs = if a.use_offset then a.ofs + suc n else a.ofs })
  after_write again a (not_took e) = (if is_again e then would_block else complete, a)

  -- `try_write`. Each round takes a byte at least.
  unfoldable pub write_rounds : ℕ → WriteAwaiter K → Attempt × WriteAwaiter K
  write_rounds zero a = (complete, a)
  write_rounds (suc fuel) a =
      let (r, k) = write_call a in
      let round = after_write (write_rounds fuel) (record a { kernel = k }) r in
      if ltb a.done (length a.buf) then round else (complete, a)

  unfoldable pub write_attempt_once : WriteAwaiter K → Attempt × WriteAwaiter K
  write_attempt_once a = write_rounds (length a.buf - a.done) a

unfoldable pub write_await_resume : {K : Type 0} → Bool → WriteAwaiter K → Return
write_await_resume closed a = if a.done == 0 && closed then minus_one ecanceled else count a.done

-- `fd` is `none` for -1. `closed_fds` are the descriptors given to `::close`.
pub record FileHandle (K : Type 0) : Type 0 where
  pub fd : Option ℕ
  pub closed : Bool
  pub read_q : SerialQueue
  pub write_q : SerialQueue
  pub exec : Executor
  pub reactor : EpollReactor K
  pub closed_fds : List ℕ

module _ {K : Type 0} (os : Epoll K) where
  unfoldable pub make_file_handle : Option ℕ → Executor → EpollReactor K → Option (FileHandle K)
  make_file_handle none exec reactor = none
  make_file_handle (some fd) exec reactor = some (record {
    fd = some fd;
    closed = false;
    read_q = serial_queue_init;
    write_q = serial_queue_init;
    exec = exec;
    reactor = add_fd os fd reactor;
    closed_fds = [];
  })

  abbrev pub put_file_queues : List SerialQueue → FileHandle K → FileHandle K
  put_file_queues (r ∷ w ∷ []) f = record f { read_q = r; write_q = w }
  put_file_queues _ f = f

  abbrev pub close_file_of : Option ℕ → FileHandle K → FileHandle K
  close_file_of none f = f
  close_file_of (some fd) f =
      let (queues, pending) = serial_collect_waiters (f.read_q ∷ f.write_q ∷ []) [] in
      put_file_queues queues (record f {
        fd = none;
        closed = true;
        reactor = remove_fd os fd f.reactor;
        exec = serial_post_pending pending f.exec;
        closed_fds = fd ∷ f.closed_fds;
      })

  unfoldable pub close_file : FileHandle K → FileHandle K
  close_file f = close_file_of f.fd f
