-- ===== src/Dns/Selecting.antt =====
-- Which address `resolve_core` selects.
use co_wq.Prelude.{
  ℕ, zero, suc, ◌≡◌, refl, sym, ap, ◌∙◌, true, false, ◌||◌, Option, none, some, List, [], ◌∷◌,
  length, ltb, ◌==◌, if◌then◌else◌, arith,
}
use co_wq.Dns.{
  af_unspec, AddrInfo, ResolveOptions, no_error, no_matching_family, ResolveResult, Resolver,
  strip_brackets, populate_ipv4_mapped, is_usable, collect_endpoints, is_selected, select, failure,
  index_in, after_select, hint_family, after_getaddrinfo, is_nil, resolve_core,
}

abbrev pub get_elem? : List (List ℕ) → ℕ → Option (List ℕ)
get_elem? [] i = none
get_elem? (x ∷ xs) zero = some x
get_elem? (x ∷ xs) (suc i) = get_elem? xs i

-- A test that no candidate passes, and that all do.
abbrev pub NoneSelected : ResolveOptions → List AddrInfo → Type 0
NoneSelected o [] = Unit
NoneSelected o (ai ∷ ais) = (is_selected o ai ≡ false) × NoneSelected o ais

abbrev pub AllUsable : List AddrInfo → Type 0
AllUsable [] = Unit
AllUsable (ai ∷ ais) = (is_usable ai ≡ true) × AllUsable ais

select-none :
    (o : ResolveOptions) (n : ℕ) (ais : List AddrInfo) → NoneSelected o ais → select o n ais ≡ none
unfolding select
select-none o n [] u = refl
select-none o n (ai ∷ ais) u = rw (u.0) (select-none o (suc n) ais u.1)

length-collect : (ais : List AddrInfo) → AllUsable ais → length (collect_endpoints ais) ≡ length ais
unfolding collect_endpoints
length-collect [] u = refl
length-collect (ai ∷ ais) u = rw (u.0) (ap suc (length-collect ais u.1))

length-get_elem? :
    (xs : List (List ℕ)) (n : ℕ) (x : List ℕ) → get_elem? xs n ≡ some x → ltb n (length xs) ≡ true
length-get_elem? [] n x e = cc
length-get_elem? (y ∷ ys) zero x e = ground arith
length-get_elem? (y ∷ ys) (suc n) x e = let rest = length-get_elem? ys n x e in ground (arith, rest)

-- The address that the caller gets for a candidate: its own, or where IPv6 was asked for and the candidate has an
-- IPv4 address, that address mapped into IPv6.
abbrev pub address_for : ResolveOptions → AddrInfo → List ℕ
address_for o ai =
    if ai.ai_family == o.family || o.family == af_unspec
    then ai.ai_addr
    else populate_ipv4_mapped ai.ai_addr

-- The result for the candidates that `getaddrinfo` gave, with `before` and `after` round the first that is selected.
pub record Selected (o : ResolveOptions) (before : List AddrInfo) (ai : AddrInfo)
    (r : ResolveResult) : Type 0 where
  pub success : r.success ≡ true
  pub address : r.storage ≡ address_for o ai
  pub error : r.error ≡ no_error
  pub listed : get_elem? r.endpoints (length (collect_endpoints before)) ≡ some ai.ai_addr
  pub index : r.selected_index ≡ index_in r.endpoints (length before)

-- The name is looked up as the caller gave it without its brackets, for both families where IPv6 was asked
-- for and IPv4 may serve.
abbrev pub answer : Resolver → List ℕ → ℕ → ResolveOptions → ℕ × List AddrInfo
answer os host port o = os.getaddrinfo (strip_brackets host) port (hint_family o)

is_answered :
    (os : Resolver) (host : List ℕ) (port : ℕ) (o : ResolveOptions) (x : ℕ × List AddrInfo)
    → is_nil (strip_brackets host) ≡ false
    → answer os host port o ≡ x
    → resolve_core os host port o ≡ after_getaddrinfo o x
unfolding resolve_core
is_answered os host port o x e f = rw e (ap (after_getaddrinfo o) f)

-- Where the candidates before it are all usable, `selected_index` is set and is its place in `endpoints`.
pub Selected-index :
    (o : ResolveOptions) (before : List AddrInfo) (ai : AddrInfo) (r : ResolveResult)
    → Selected o before ai r
    → AllUsable before
    → (r.selected_index ≡ some (length before))
      × (get_elem? r.endpoints (length before) ≡ some ai.ai_addr)
Selected-index o before ai r s all =
    let at = ap (get_elem? r.endpoints) (sym (length-collect before all)) ∙ s.listed in
    (
      s.index
          ∙ ap (λ b. if b then some (length before) else none)
              (length-get_elem? r.endpoints (length before) ai.ai_addr at),
      at,
    )

-- Where none of the candidates suits the options it fails, with all usable addresses listed and none selected.
pub resolve_core-no_match :
    (os : Resolver) (host : List ℕ) (port : ℕ) (o : ResolveOptions) (ai : AddrInfo)
    (ais : List AddrInfo)
    → is_nil (strip_brackets host) ≡ false
    → answer os host port o ≡ (0, ai ∷ ais)
    → NoneSelected o (ai ∷ ais)
    → resolve_core os host port o ≡ failure no_matching_family (collect_endpoints (ai ∷ ais)) none
resolve_core-no_match os host port o ai ais e f n =
    is_answered os host port o (0, ai ∷ ais) e f
    ∙ ap (after_select o (collect_endpoints (ai ∷ ais))) (select-none o 0 (ai ∷ ais) n)
