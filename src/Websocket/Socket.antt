-- ===== src/Websocket/Socket.antt =====
-- The `Socket` template parameter of net/websocket.hpp, and the read loops over it.
-- A socket is an interface: the state is the client's, and `co_await` is a call that returns.
pub mod Reading
pub mod Loopback
use co_wq.Prelude.{
  ℕ, zero, suc, ◌-◌, ◌≤◌, ◌<◌, ◌≡◌, Bool, true, false, List, [], ◌∷◌, ◌++◌, leb, length,
  if◌then◌else◌,
}

-- What `sock.recv` returns: the bytes that it stored (`n` is their number, so none is `n == 0`),
-- or a negative `n`, by its magnitude.
pub data Recv : Type 0 where
  got : List ℕ → Recv
  failed : ℕ → Recv

-- `send_all` tells whether its result is not negative.
pub record Socket (S : Type 0) : Type 0 where
  pub recv : ℕ → S → Recv × S
  pub send_all : List ℕ → S → Bool × S
  pub close : S → S

-- The values of `frame_result::error` and `message_result::error`. `out_of_fuel` is the model's.
pub data Error : Type 0 where
  econnreset eproto emsgsize out_of_fuel : Error
  socket_error : ℕ → Error

pub data Result {ℓ} (A : Type ℓ) : Type ℓ where
  ok : A → Result A
  err : Error → Result A

abbrev pub Io : Type 0 → Type 0 → Type 0
Io S A = S → Result A × S

module _ {S A : Type 0} where
  abbrev pub pure : A → Io S A
  pure a s = (ok a, s)

  abbrev pub fail : Error → Io S A
  fail e s = (err e, s)

module _ {S A B : Type 0} where
  abbrev pub and_then : Result A × S → (A → Io S B) → Result B × S
  and_then (ok a, s) k = k a s
  and_then (err e, s) k = (err e, s)

  infixl 5 ◌>>=◌
  abbrev pub ◌>>=◌ : Io S A → (A → Io S B) → Io S B
  ◌>>=◌ m k s = and_then (m s) k

module _ {S B : Type 0} where
  infixl 5 ◌>>◌
  abbrev pub ◌>>◌ : Io S (Unit {0}) → Io S B → Io S B
  m >> k = m >>= λ _. k

abbrev pub guard : {S : Type 0} → Bool → Error → Io S (Unit {0})
guard test e = if test then pure tt else fail e

module _ {S : Type 0} (sock : Socket S) where
  -- `if (n <= 0) { ... co_return result; } read_bytes += n;`, and the next round.
  abbrev pub take_chunk : (List ℕ → Io S (List ℕ)) → List ℕ → Recv × S → Result (List ℕ) × S
  take_chunk next buf (got [], s) = fail econnreset s
  take_chunk next buf (got (b ∷ bs), s) = next (buf ++ b ∷ bs) s
  take_chunk next buf (failed n, s) = fail (socket_error n) s

  -- `while (read_bytes < size) { ... }`, where `buf` is what has been read.
  pub recv_loop : ℕ → ℕ → List ℕ → Io S (List ℕ)
  recv_loop zero size buf s = fail out_of_fuel s
  recv_loop (suc fuel) size buf s = elim (leb size (length buf)) [
    | true ↦ pure buf s
    | false ↦ take_chunk (recv_loop fuel size) buf (sock.recv (size - length buf) s)
  ]

  -- Each round brings a byte at least, so `size + 1` rounds are enough.
  unfoldable pub recv_exact : ℕ → Io S (List ℕ)
  unfolding recv_loop
  recv_exact size = recv_loop (suc size) size []

-- A socket over a byte stream that keeps what is in flight and what was written: `recv` yields a
-- prefix of the bytes in flight, of any length that it chooses, and `send_all` succeeds.
pub record Stream {S : Type 0} (sock : Socket S) : Type 0 where
  pub pending : S → List ℕ
  pub written : S → List ℕ
  pub recv_prefix :
      (n : ℕ) (s : S) (b : ℕ) (bs : List ℕ)
      → 0 < n
      → pending s ≡ b ∷ bs
      → (c : ℕ) × (cs : List ℕ) × ((sock.recv n s).0 ≡ got (c ∷ cs))
        × (length (c ∷ cs) ≤ n)
        × (pending s ≡ (c ∷ cs) ++ pending (sock.recv n s).1)
        × (written (sock.recv n s).1 ≡ written s)
  pub send_appends :
      (bs : List ℕ) (s : S)
      → ((sock.send_all bs s).0 ≡ true)
        × (written (sock.send_all bs s).1 ≡ written s ++ bs)
        × (pending (sock.send_all bs s).1 ≡ pending s)
