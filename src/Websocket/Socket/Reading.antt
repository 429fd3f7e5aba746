-- ===== src/Websocket/Socket/Reading.antt =====
-- The read loops of net/websocket.hpp: they end on every socket, and over a byte stream they
-- return the bytes asked for, however the stream cuts them into pieces.
use co_wq.Prelude.{
  ℕ, zero, suc, ◌+◌, ◌-◌, ◌≤◌, ◌<◌, ◌≡◌, refl, sym, ap, ◌∙◌, ◌≢◌, true, false, List, [], ◌∷◌, ◌++◌,
  inl, inr, append_assoc, append-nil, leb, length, length-append, Bool-cases, arith,
}
use co_wq.Websocket.Socket.{
  Socket, Stream, Recv, got, failed, Result, ok, err, out_of_fuel, recv_loop, recv_exact,
  take_chunk, and_then,
}

-- Two ways to cut one list.
cut_prefix {ℓ} :
    {A : Type ℓ} (xs ys zs ws : List A)
    → xs ++ ys ≡ zs ++ ws
    → length zs ≤ length xs
    → (vs : List A) × (xs ≡ zs ++ vs) × (ws ≡ vs ++ ys)
cut_prefix xs ys [] ws e h = (xs, refl, sym e)
cut_prefix [] ys (z ∷ zs) ws e h = absurd (omega arith)
cut_prefix (x ∷ xs) ys (z ∷ zs) ws e h =
    let (vs, p, q) = cut_prefix xs ys zs ws (cc) (omega arith) in (vs, cc, q)

module _ {S : Type 0} {sock : Socket S} (st : Stream sock) where
  open st use {pending, written}

  -- The run returned `out`, left `rest` in flight and wrote nothing.
  pub record Delivers {A : Type 0} (s : S) (out : A) (rest : List ℕ) (r : Result A × S)
      : Type 0 where
    pub result : r.0 ≡ ok out
    pub left : pending r.1 ≡ rest
    pub kept : written r.1 ≡ written s

  -- A delivery and what is done with its result.
  pub Delivers-bind :
      {A B : Type 0} {s : S} {a : A} {b : B} {rest last : List ℕ} (r : Result A × S)
      (next : A → S → Result B × S)
      → Delivers s a rest r
      → ((s' : S) → pending s' ≡ rest → written s' ≡ written s → Delivers s' b last (next a s'))
      → Delivers s b last (and_then r next)
  Delivers-bind {a} (ok a', s') next d then_ =
      let same : a' ≡ a = cc (d.result) in
      let n = then_ s' d.left d.kept in
      rw same (record { result = n.result; left = n.left; kept = n.kept ∙ d.kept })
  Delivers-bind (err e, s') next d then_ = cc (d.result)

  -- What one `recv` does where `todo` is wanted and all of it is in flight.
  abbrev Chunk : ℕ → List ℕ → List ℕ → S → Type 0
  Chunk n todo rest s =
      (c : ℕ) × (cs vs : List ℕ) × (s' : S) × (sock.recv n s ≡ (got (c ∷ cs), s'))
      × (todo ≡ (c ∷ cs) ++ vs)
      × (pending s' ≡ vs ++ rest)
      × (written s' ≡ written s)

  recv-Chunk :
      (n : ℕ) (todo rest : List ℕ) (s : S)
      → pending s ≡ todo ++ rest
      → 0 < n
      → n ≡ length todo
      → Chunk n todo rest s
  recv-Chunk n [] rest s p h l = absurd (omega arith)
  recv-Chunk n (b ∷ bs) rest s p h l =
      let (c, cs, e, len, q, w) = st.recv_prefix n s b (bs ++ rest) h p in
      let (vs, cut, left) = cut_prefix (b ∷ bs) rest (c ∷ cs) _ (sym p ∙ q) (omega arith) in
      (c, cs, vs, (sock.recv n s).1, λ i. (e i, (sock.recv n s).1), cut, left, w)

  recv_loop-Delivers :
      (fuel size : ℕ) (buf todo rest : List ℕ) (s : S)
      → pending s ≡ todo ++ rest
      → size ≡ length buf + length todo
      → length todo < fuel
      → Delivers s (buf ++ todo) rest (recv_loop sock fuel size buf s)
  unfolding recv_loop
  recv_loop-Delivers zero size buf todo rest s p n f = elim f [ ]
  recv_loop-Delivers (suc fuel) size buf [] rest s p n f =
      let done : leb size (length buf) ≡ true = ground arith in
      rw (done, recv_loop) (record { result = ap ok (sym (append-nil buf)); left = p; kept = refl })
  recv_loop-Delivers (suc fuel) size buf (b ∷ bs) rest s p n f =
      let more : leb size (length buf) ≡ false = ground arith in
      rw (more, recv_loop)
        (go (recv-Chunk (size - length buf) (b ∷ bs) rest s p (omega arith) (omega arith))
          (recv_loop-Delivers fuel size))
    where
      go :
          Chunk (size - length buf) (b ∷ bs) rest s
          → ((buf' todo' rest' : List ℕ) (s' : S)
              → pending s' ≡ todo' ++ rest'
              → size ≡ length buf' + length todo'
              → length todo' < fuel
              → Delivers s' (buf' ++ todo') rest' (recv_loop sock fuel size buf' s'))
          → Delivers s
              (buf ++ b ∷ bs)
              rest
              (take_chunk sock (recv_loop sock fuel size) buf (sock.recv (size - length buf) s))
      go (c, cs, vs, s', e, cut, left, w) ih =
          let whole : length (b ∷ bs) ≡ length (c ∷ cs) + length vs =
            ap length cut ∙ length-append (c ∷ cs) vs in
          let d =
            ih (buf ++ c ∷ cs) vs rest s' left (omega (arith, length-append buf (c ∷ cs)))
              (omega arith) in
          rw e (record {
            result = d.result ∙ ap ok (append_assoc buf (c ∷ cs) vs ∙ ap (◌++◌ buf) (sym cut));
            left = d.left;
            kept = d.kept ∙ w;
          })

  -- A read of a fixed number of bytes takes exactly those, however the stream cuts them.
  pub recv_exact-Delivers :
      (size : ℕ) (todo rest : List ℕ) (s : S)
      → pending s ≡ todo ++ rest
      → size ≡ length todo
      → Delivers s todo rest (recv_exact sock size s)
  unfolding recv_exact
  recv_exact-Delivers size todo rest s p n =
      recv_loop-Delivers (suc size) size [] todo rest s p (omega arith) (omega arith)

module _ {S : Type 0} (sock : Socket S) where
  take_chunk-ends :
      (next : List ℕ → S → Result (List ℕ) × S) (size fuel : ℕ) (buf : List ℕ) (r : Recv × S)
      → ((buf' : List ℕ) (s' : S) → size < fuel + length buf' → (next buf' s').0 ≢ err out_of_fuel)
      → size < suc fuel + length buf
      → (take_chunk sock next buf r).0 ≢ err out_of_fuel
  take_chunk-ends next size fuel buf (got [], s) ih f = λ e. cc
  take_chunk-ends next size fuel buf (got (b ∷ bs), s) ih f =
      ih (buf ++ b ∷ bs) s (omega (arith, length-append buf (b ∷ bs)))
  take_chunk-ends next size fuel buf (failed n, s) ih f = λ e. cc

  recv_loop-ends :
      (fuel size : ℕ) (buf : List ℕ) (s : S)
      → 0 < fuel
      → size < fuel + length buf
      → (recv_loop sock fuel size buf s).0 ≢ err out_of_fuel
  unfolding recv_loop
  recv_loop-ends zero size buf s pos f = elim pos [ ]
  recv_loop-ends (suc fuel) size buf s pos f = elim (Bool-cases (leb size (length buf))) [
    | inl done ↦ rw (done, recv_loop) (λ e. cc)
    | inr more ↦
        rw (more, recv_loop)
          (take_chunk-ends (recv_loop sock fuel size) size fuel buf _
            (λ buf' s'. recv_loop-ends fuel size buf' s' (ground arith)) f)
  ]

  -- Every read loop ends: a round that goes on has read a byte, so the fuel never runs out. This
  -- holds on every socket, with no assumption on what it returns.
  pub recv_exact-ends : (size : ℕ) (s : S) → (recv_exact sock size s).0 ≢ err out_of_fuel
  unfolding recv_exact
  recv_exact-ends size s = recv_loop-ends (suc size) size [] s (omega arith) (omega arith)
