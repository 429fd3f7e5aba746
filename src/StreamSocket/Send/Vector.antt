-- ===== src/StreamSocket/Send/Vector.antt =====
-- `advance_iov`: an `iovec` of which the first bytes were written.
use co_wq.Prelude.{
  ℕ, ◌+◌, ◌-◌, ◌≤◌, ◌≡◌, refl, sym, ap, ◌∙◌, Bool, true, false, List, [], ◌∷◌, ◌++◌, leb, ◌==◌,
  if◌then◌else◌, length, drop, drop-append, drop_all, length-drop, length-append, arith,
}
use co_wq.StreamSocket.Send.{total, concat, advance_iov}

pub length-concat : (vec : List (List ℕ)) → length (concat vec) ≡ total vec
length-concat [] = refl
length-concat (v ∷ vec) = length-append v (concat vec) ∙ ap (λ n. length v + n) (length-concat vec)

advanced : (n : ℕ) (v rest : List ℕ) → length v ≤ n → drop n (v ++ rest) ≡ drop (n - length v) rest
advanced n v rest l =
    drop-append n v rest ∙ ap (λ d. d ++ drop (n - length v) rest) (drop_all n v l)

stopped : (n : ℕ) (v rest : List ℕ) → n ≤ length v → drop n (v ++ rest) ≡ drop n v ++ rest
stopped n v rest l =
    let none : n - length v ≡ 0 = omega arith in
    drop-append n v rest ∙ ap (λ m. drop n v ++ drop m rest) none

is_zero : (n : ℕ) → (n == 0) ≡ true → n ≡ 0
is_zero n e = ground (arith, e)

choose :
    (b : Bool) (x y : List (List ℕ)) (w : List ℕ)
    → (b ≡ true → concat x ≡ w)
    → (b ≡ false → concat y ≡ w)
    → concat (if b then x else y) ≡ w
choose true x y w f g = f refl
choose false x y w f g = g refl

-- After `advance_iov(n)` the `iovec` names the bytes it named before without the first `n`.
pub advance_iov-drop :
    (n : ℕ) (vec : List (List ℕ)) → concat (advance_iov n vec) ≡ drop n (concat vec)
unfolding advance_iov
advance_iov-drop n [] = sym (drop_all n [] (omega arith))
advance_iov-drop n (v ∷ vec) =
    choose (n == 0) _ _ _ (λ none. ap (λ m. drop m (v ++ concat vec)) (sym (is_zero n none)))
      (λ some.
        choose (leb (length v) n) _ _ _
          (λ whole.
            advance_iov-drop (n - length v) vec
            ∙ sym (advanced n v (concat vec) (ground (arith, whole))))
          (λ part. sym (stopped n v (concat vec) (ground (arith, part)))))

pub total-advance_iov : (n : ℕ) (vec : List (List ℕ)) → total (advance_iov n vec) ≡ total vec - n
total-advance_iov n vec =
    sym (length-concat (advance_iov n vec))
    ∙ ap length (advance_iov-drop n vec)
    ∙ length-drop n (concat vec)
    ∙ ap (λ m. m - n) (length-concat vec)
