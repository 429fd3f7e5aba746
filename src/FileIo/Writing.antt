-- ===== src/FileIo/Writing.antt =====
-- What a write of a file has written, and what it returns.
use co_wq.Prelude.{
  ℕ, zero, suc, ◌+◌, ◌-◌, ◌≤◌, ◌≡◌, refl, sym, ap, ◌∙◌, inl, inr, Bool, true, false, ◌&&◌, List, [],
  ◌∷◌, drop, length, get_or, ltb, leb, ◌==◌, if◌then◌else◌, Bool-cases, length-drop, arith,
}
use co_wq.Serial.{Attempt}
use co_wq.Serial.Work.{After}
use co_wq.StreamSocket.{Errno, ecanceled, Sent, took, not_took, is_again, count, minus_one}
use co_wq.StreamSocket.Send.Delivery.{number_of}
use co_wq.FileIo.{FileKernel, WriteAwaiter, write_call, write_await_resume}

-- The bytes of a file by their places, with the first `n` of `bs` laid over them from `at` on.
abbrev pub laid : ℕ → ℕ → List ℕ → (ℕ → ℕ) → ℕ → ℕ
laid at n bs c i = if leb at i && ltb i (at + n) then get_or bs (i - at) 0 else c i

get_or-drop : (m j : ℕ) (bs : List ℕ) → get_or (drop m bs) j 0 ≡ get_or bs (m + j) 0
get_or-drop zero j bs = ap (λ i. get_or bs i 0) (omega arith)
get_or-drop (suc m) j [] = refl
get_or-drop (suc m) j (b ∷ bs) =
    let next : suc m + j ≡ suc (m + j) = omega arith in
    get_or-drop m j bs ∙ ap (λ i. get_or (b ∷ bs) i 0) (sym next)

-- Laying on where it was left off.
laid-more :
    (at m n i : ℕ) (bs : List ℕ) (c c' : ℕ → ℕ)
    → c' i ≡ laid at m bs c i
    → laid (at + m) n (drop m bs) c' i ≡ laid at (m + n) bs c i
laid-more at m n i bs c c' e = elim (Bool-cases (leb (at + m) i)) [
  | inl behind ↦
      let same : m + (i - (at + m)) ≡ i - at = ground (arith, behind) in
      let found = get_or-drop m (i - (at + m)) bs ∙ ap (λ j. get_or bs j 0) same in
      ground (arith, behind, found, e)
  | inr before ↦ ground (arith, before, e)
]

-- A file with a position that only `write` moves: a call lays the front of what it was given over the bytes there.
pub record WritesFile {K : Type 0} (os : FileKernel K) : Type 0 where
  pub content : K → ℕ → ℕ
  pub position : K → ℕ
  pub at_most : (bs : List ℕ) (k : K) → number_of (os.write bs k).0 ≤ length bs
  pub lays :
      (bs : List ℕ) (k : K) (i : ℕ)
      → content (os.write bs k).1 i
        ≡ laid (position k) (number_of (os.write bs k).0) bs (content k) i
  pub moves :
      (bs : List ℕ) (k : K) → position (os.write bs k).1 ≡ position k + number_of (os.write bs k).0
  pub at_most_at : (bs : List ℕ) (ofs : ℕ) (k : K) → number_of (os.pwrite bs ofs k).0 ≤ length bs
  pub lays_at :
      (bs : List ℕ) (ofs : ℕ) (k : K) (i : ℕ)
      → content (os.pwrite bs ofs k).1 i
        ≡ laid ofs (number_of (os.pwrite bs ofs k).0) bs (content k) i

module _ {K : Type 0} (os : FileKernel K) (file : WritesFile os) where
  -- Where an awaiter writes next.
  abbrev pub place : WriteAwaiter K → ℕ
  place a = if a.use_offset then a.ofs else file.position a.kernel

  -- What was written of `bytes` from `at` on, over a file that held `before`: the front, `done` bytes.
  pub record Laid (bytes : List ℕ) (at : ℕ) (before : ℕ → ℕ) (a : WriteAwaiter K) : Type 0 where
    pub named : a.buf ≡ bytes
    pub holds : (i : ℕ) → file.content a.kernel i ≡ laid at a.done bytes before i
    pub there : place a ≡ at + a.done
    pub fits : a.done ≤ length bytes

  -- Why a write may end, and what it returns: the number of bytes written in every case, but -1 for nothing written
  -- to a file that has been closed meanwhile. An error is not told.
  pub data Why (a : WriteAwaiter K) : Type 0 where
    all_written : a.done ≡ length a.buf → Why a
    none_taken : (k : K) → (write_call os (record a { kernel = k })).0 ≡ took 0 → Why a
    by_error :
        (e : Errno) (k : K)
        → is_again e ≡ false
        → (write_call os (record a { kernel = k })).0 ≡ not_took e
        → Why a

  pub record Finished (bytes : List ℕ) (at : ℕ) (before : ℕ → ℕ) (a : WriteAwaiter K) : Type 0 where
    pub laid_out : Laid bytes at before a
    pub why : Why a
    pub returns :
        (closed : Bool)
        → write_await_resume closed a
          ≡ (if a.done == 0 && closed then minus_one ecanceled else count a.done)

  module _ (bytes : List ℕ) (at : ℕ) (before : ℕ → ℕ) where
    abbrev Rule : Attempt × WriteAwaiter K → Type 0
    Rule = After (Laid bytes at before) (Finished bytes at before)

    -- The facts of one call.
    abbrev Called : (b : Bool) → WriteAwaiter K → Sent × K → Type 0
    Called b a (r, k) =
        ((i : ℕ) → file.content k i ≡ laid at (a.done + number_of r) bytes before i)
        × ((if b then a.ofs + number_of r else file.position k) ≡ at + (a.done + number_of r))
        × (a.done + number_of r ≤ length bytes)

    laid_on :
        (a : WriteAwaiter K) (p n : ℕ) (i : ℕ)
        → Laid bytes at before a
        → p ≡ at + a.done
        → laid p n (drop a.done a.buf) (file.content a.kernel) i
          ≡ laid at (a.done + n) bytes before i
    laid_on a p n i l e =
        ap (λ q. laid q n (drop a.done a.buf) (file.content a.kernel) i) e
        ∙ ap (λ b. laid (at + a.done) n (drop a.done b) (file.content a.kernel) i) l.named
        ∙ laid-more at a.done n i bytes before (file.content a.kernel) (l.holds i)

    room :
        (a : WriteAwaiter K) (n : ℕ)
        → Laid bytes at before a
        → n ≤ length (drop a.done a.buf)
        → a.done + n ≤ length bytes
    room a n l m = omega (arith, m, length-drop a.done a.buf, ap length l.named, l.fits)

    called :
        (b : Bool) (a : WriteAwaiter K)
        → Laid bytes at before a
        → (if b then a.ofs else file.position a.kernel) ≡ at + a.done
        → Called b a (
            if b
            then os.pwrite (drop a.done a.buf) a.ofs a.kernel
            else os.write (drop a.done a.buf) a.kernel)
    called true a l e =
        let bs = drop a.done a.buf in
        (
          λ i. file.lays_at bs a.ofs a.kernel i ∙ laid_on a a.ofs _ i l e,
          omega (arith, e),
          room a _ l (file.at_most_at bs a.ofs a.kernel),
        )
    called false a l e =
        let bs = drop a.done a.buf in
        (
          λ i. file.lays bs a.kernel i ∙ laid_on a (file.position a.kernel) _ i l e,
          omega (arith, file.moves bs a.kernel, e),
          room a _ l (file.at_most bs a.kernel),
        )
