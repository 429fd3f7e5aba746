-- ===== src/Websocket/Socket/Loopback.antt =====
-- A socket over two lists of bytes, which yields one byte at a time: a byte stream for the examples.
use co_wq.Prelude.{ℕ, ◌≤◌, ◌<◌, ◌≡◌, refl, sym, ◌∙◌, true, List, [], ◌∷◌, ◌++◌, length}
use co_wq.Websocket.Socket.{Recv, got, Socket, Stream}

pub record Wire : Type 0 where
  pub pending : List ℕ
  pub written : List ℕ

abbrev one_byte : List ℕ → Wire → Recv × Wire
one_byte [] w = (got [], w)
one_byte (b ∷ bs) w = (got (b ∷ []), record w { pending = bs })

abbrev pub loopback : Socket Wire
loopback = record {
  recv = λ n w. one_byte w.pending w;
  send_all = λ bs w. (true, record w { written = w.written ++ bs });
  close = λ w. w;
}

pub one_byte_prefix :
    (n : ℕ) (xs : List ℕ) (w : Wire) (b : ℕ) (bs : List ℕ)
    → 0 < n
    → xs ≡ b ∷ bs
    → w.pending ≡ b ∷ bs
    → (c : ℕ) × (cs : List ℕ) × ((one_byte xs w).0 ≡ got (c ∷ cs))
      × (length (c ∷ cs) ≤ n)
      × (w.pending ≡ (c ∷ cs) ++ (one_byte xs w).1.pending)
      × ((one_byte xs w).1.written ≡ w.written)
one_byte_prefix n [] w b bs h e f = (b, bs, cc, cc, cc, cc)
one_byte_prefix n (x ∷ xs) w b bs h e f = (x, [], refl, h, f ∙ sym e, refl)

abbrev pub loopback_stream : Stream loopback
loopback_stream = record {
  pending = λ w. w.pending;
  written = λ w. w.written;
  recv_prefix = λ n w b bs h e. one_byte_prefix n w.pending w b bs h e e;
  send_appends = λ bs w. (refl, refl, refl);
}
