-- ===== src/Websocket/Header/Csv.antt =====
-- The tokens of a header value.
use co_wq.Prelude.{
  ℕ, zero, suc, ◌≤◌, ◌≡◌, refl, ap₂, ◌∙◌, Bool, true, false, List, [], ◌∷◌, ◌++◌, ◌==◌,
  if◌then◌else◌, length, length-append, arith,
}
use co_wq.Websocket.Header.{
  is_space, trim_begin, trim_end, trim, find_comma, csv_loop, parse_header_csv, to_lower, same,
  upgrade_token, upgrade_loop, connection_contains_upgrade,
}

-- Some token is `upgrade`, in any case of letters.
abbrev pub any_upgrade : List (List ℕ) → Bool
any_upgrade [] = false
any_upgrade (t ∷ ts) = if same (to_lower t) upgrade_token then true else any_upgrade ts

upgrade_loop-csv_loop :
    (fuel : ℕ) (value : List ℕ) → upgrade_loop fuel value ≡ any_upgrade (csv_loop fuel value)
unfolding upgrade_loop csv_loop
upgrade_loop-csv_loop zero value = refl
upgrade_loop-csv_loop (suc fuel) [] = refl
upgrade_loop-csv_loop (suc fuel) (c ∷ cs) =
    rw (upgrade_loop-csv_loop fuel (find_comma (c ∷ cs)).1) refl

-- A `Connection` header asks for an upgrade exactly if one of its tokens, as `parse_header_csv` gives
-- them, is `upgrade` in any case of letters.
pub connection_contains_upgrade-any :
    (header : List ℕ) → connection_contains_upgrade header ≡ any_upgrade (parse_header_csv header)
unfolding connection_contains_upgrade parse_header_csv
connection_contains_upgrade-any header = upgrade_loop-csv_loop (length header) header

-- Neither a comma nor a space.
abbrev pub AllClean : List ℕ → Type 0
AllClean [] = Unit {0}
AllClean (c ∷ cs) = (((c == 44) ≡ false) × (is_space c ≡ false)) × AllClean cs

abbrev pub IsToken : List ℕ → Type 0
IsToken [] = ⊥
IsToken (c ∷ cs) = AllClean (c ∷ cs)

abbrev pub AllTokens : List (List ℕ) → Type 0
AllTokens [] = Unit {0}
AllTokens (t ∷ ts) = IsToken t × AllTokens ts

-- The tokens with a comma and a space between them.
abbrev pub join_csv : List (List ℕ) → List ℕ
join_csv [] = []
join_csv (t ∷ []) = t
join_csv (t ∷ u ∷ us) = t ++ 44 ∷ 32 ∷ join_csv (u ∷ us)

-- A value with a space before it, or none.
abbrev spaced : Bool → List ℕ → List ℕ
spaced true value = 32 ∷ value
spaced false value = value

trim_end-AllClean : (t : List ℕ) → AllClean t → trim_end t ≡ t
unfolding trim_end
trim_end-AllClean [] a = refl
trim_end-AllClean (c ∷ []) a = rw (a.0.1) refl
trim_end-AllClean (c ∷ d ∷ ds) a = rw (trim_end-AllClean (d ∷ ds) a.1) refl

trim-spaced : (b : Bool) (t : List ℕ) → IsToken t → trim (spaced b t) ≡ t
unfolding trim trim_begin
trim-spaced b [] k = elim k [ ]
trim-spaced true (c ∷ cs) k = rw (k.0.1) (trim_end-AllClean (c ∷ cs) k)
trim-spaced false (c ∷ cs) k = rw (k.0.1) (trim_end-AllClean (c ∷ cs) k)

find_comma-AllClean : (t : List ℕ) → AllClean t → find_comma t ≡ (t, [])
unfolding find_comma
find_comma-AllClean [] a = refl
find_comma-AllClean (c ∷ cs) a = rw (a.0.0, find_comma-AllClean cs a.1) refl

find_comma-append : (t v : List ℕ) → AllClean t → find_comma (t ++ 44 ∷ v) ≡ (t, v)
unfolding find_comma
find_comma-append [] v a = refl
find_comma-append (c ∷ cs) v a = rw (a.0.0, find_comma-append cs v a.1) refl

-- The same behind a space.
find_comma-spaced :
    (b : Bool) (v token later : List ℕ)
    → find_comma v ≡ (token, later)
    → find_comma (spaced b v) ≡ (spaced b token, later)
unfolding find_comma
find_comma-spaced true v token later e = rw e refl
find_comma-spaced false v token later e = e

-- One round of the loop, on a value that is not empty.
csv_loop-token :
    (fuel : ℕ) (value token later : List ℕ)
    → 1 ≤ length value
    → find_comma value ≡ (token, later)
    → csv_loop (suc fuel) value ≡ trim token ∷ csv_loop fuel later
unfolding csv_loop
csv_loop-token fuel [] token later l e = absurd (omega arith)
csv_loop-token fuel (c ∷ cs) token later l e = rw e refl

csv_loop-nil : (fuel : ℕ) → csv_loop fuel [] ≡ []
unfolding csv_loop
csv_loop-nil zero = refl
csv_loop-nil (suc fuel) = refl

spaced-positive : (b : Bool) (c : ℕ) (cs : List ℕ) → 1 ≤ length (spaced b (c ∷ cs))
spaced-positive true c cs = omega arith
spaced-positive false c cs = omega arith

spaced-length : (b : Bool) (v : List ℕ) → length v ≤ length (spaced b v)
spaced-length true v = omega arith
spaced-length false v = omega arith

csv_loop-join_csv :
    (fuel : ℕ) (b : Bool) (t : List ℕ) (ts : List (List ℕ))
    → AllTokens (t ∷ ts)
    → length (spaced b (join_csv (t ∷ ts))) ≤ fuel
    → csv_loop fuel (spaced b (join_csv (t ∷ ts))) ≡ t ∷ ts
csv_loop-join_csv fuel b [] ts k l = elim k.0 [ ]
csv_loop-join_csv zero true (c ∷ cs) ts k l = absurd (omega arith)
csv_loop-join_csv zero false (c ∷ cs) [] k l = absurd (omega arith)
csv_loop-join_csv zero false (c ∷ cs) (u ∷ us) k l = absurd (omega arith)
csv_loop-join_csv (suc fuel) b (c ∷ cs) [] k l =
    let t = c ∷ cs in
    csv_loop-token fuel (spaced b t) (spaced b t) [] (spaced-positive b c cs)
      (find_comma-spaced b t t [] (find_comma-AllClean t k.0))
    ∙ ap₂ (λ x y. x ∷ y) (trim-spaced b t k.0) (csv_loop-nil fuel)
csv_loop-join_csv (suc fuel) b (c ∷ cs) (u ∷ us) k l =
    let t = c ∷ cs in
    let later = 32 ∷ join_csv (u ∷ us) in
    csv_loop-token fuel (spaced b (t ++ 44 ∷ later)) (spaced b t) later
      (spaced-positive b c (cs ++ 44 ∷ later))
      (find_comma-spaced b (t ++ 44 ∷ later) t later (find_comma-append t later k.0))
    ∙ ap₂ (λ x y. x ∷ y) (trim-spaced b t k.0)
        (csv_loop-join_csv fuel true u us k.1
          (omega (arith, l, spaced-length b (t ++ 44 ∷ later), length-append t (44 ∷ later))))

-- A header value that lists tokens with commas and spaces between them is read back as these tokens, in
-- their order. A token is not empty and holds neither a comma nor a space.
pub parse_header_csv-join_csv :
    (ts : List (List ℕ)) → AllTokens ts → parse_header_csv (join_csv ts) ≡ ts
unfolding parse_header_csv csv_loop
parse_header_csv-join_csv [] k = refl
parse_header_csv-join_csv (t ∷ ts) k =
    csv_loop-join_csv (length (join_csv (t ∷ ts))) false t ts k (omega arith)
