-- ===== src/Dns.antt =====
-- net/dns_resolver.cpp: `resolve_core` and what it calls, and in the child Async the threads that run it. `getaddrinfo` is
-- a parameter. A socket address is the list of its bytes, in the layout and with the constants of
-- Linux on a little-endian machine; its length is `ai_addrlen`, and a null `ai_addr` has none.
pub mod Selecting
pub mod Async
pub mod Resuming
mod Examples
use co_wq.Prelude.{
  ℕ, zero, suc, ◌+◌, ◌-◌, Bool, true, false, ◌&&◌, ◌||◌, Option, none, some, List, [], ◌∷◌, ◌++◌,
  take, drop, length, leb, ltb, ◌==◌, if◌then◌else◌,
}

abbrev pub af_unspec : ℕ
af_unspec = 0

abbrev pub af_inet : ℕ
af_inet = 2

abbrev pub af_inet6 : ℕ
af_inet6 = 10

-- `sizeof(sockaddr_storage)`
abbrev pub storage_size : ℕ
storage_size = 128

pub record AddrInfo : Type 0 where
  pub ai_family : ℕ
  pub ai_addr : List ℕ

pub record ResolveOptions : Type 0 where
  pub family : ℕ
  pub allow_dual_stack : Bool

-- `error_code` with its message: `EAI_NONAME` for an empty host, for no matching and for an unsupported family,
-- what `getaddrinfo` returned, and `EAI_FAIL`.
pub data ResolveError : Type 0 where
  no_error empty_host no_matching_family unsupported_family address_too_large : ResolveError
  no_results : ResolveError
  getaddrinfo_failed : ℕ → ResolveError

-- `storage` holds `length` bytes of the address. `selected_index` is `none` for `SIZE_MAX`.
pub record ResolveResult : Type 0 where
  pub success : Bool
  pub storage : List ℕ
  pub error : ResolveError
  pub endpoints : List (List ℕ)
  pub selected_index : Option ℕ

-- The result and the list of `getaddrinfo(node, service, hints)`. The empty list is the null pointer.
pub record Resolver : Type 0 where
  pub getaddrinfo : List ℕ → ℕ → ℕ → ℕ × List AddrInfo

abbrev pub last_is : ℕ → List ℕ → Bool
last_is c [] = false
last_is c (x ∷ []) = x == c
last_is c (x ∷ y ∷ xs) = last_is c (y ∷ xs)

abbrev pub first_is : ℕ → List ℕ → Bool
first_is c [] = false
first_is c (x ∷ xs) = x == c

unfoldable pub strip_brackets : List ℕ → List ℕ
strip_brackets input =
    if leb 2 (length input) && first_is b'[' input && last_is b']' input
    then take (length input - 2) (drop 1 input)
    else input

-- `sockaddr_in` has the port at 2 and the address at 4. `sockaddr_in6` has the family, the port, four bytes for
-- the flow, sixteen for the address and four for the scope.
unfoldable pub populate_ipv4_mapped : List ℕ → List ℕ
populate_ipv4_mapped v4 =
    (af_inet6 ∷ 0 ∷ [])
    ++ take 2 (drop 2 v4)
    ++ (0 ∷ 0 ∷ 0 ∷ 0 ∷ [])
    ++ (0 ∷ 0 ∷ 0 ∷ 0 ∷ 0 ∷ 0 ∷ 0 ∷ 0 ∷ 0 ∷ 0 ∷ 0xff ∷ 0xff ∷ [])
    ++ take 4 (drop 4 v4)
    ++ (0 ∷ 0 ∷ 0 ∷ 0 ∷ [])

-- The candidates that become endpoints.
abbrev pub is_usable : AddrInfo → Bool
is_usable ai = ltb 0 (length ai.ai_addr) && leb (length ai.ai_addr) storage_size

unfoldable pub collect_endpoints : List AddrInfo → List (List ℕ)
collect_endpoints [] = []
collect_endpoints (ai ∷ ais) =
    let rest = collect_endpoints ais in if is_usable ai then ai.ai_addr ∷ rest else rest

-- The three tests of the selecting loop.
abbrev pub is_selected : ResolveOptions → AddrInfo → Bool
is_selected o ai =
    o.family == af_unspec
    || ai.ai_family == o.family
    || (o.family == af_inet6 && o.allow_dual_stack && ai.ai_family == af_inet)

-- The loop: the first candidate that is selected, with its index.
unfoldable pub select : ResolveOptions → ℕ → List AddrInfo → Option (ℕ × AddrInfo)
select o index [] = none
select o index (ai ∷ ais) =
    let rest = select o (suc index) ais in if is_selected o ai then some (index, ai) else rest

abbrev pub failure : ResolveError → List (List ℕ) → Option ℕ → ResolveResult
failure e endpoints index = record {
  success = false;
  storage = [];
  error = e;
  endpoints = endpoints;
  selected_index = index;
}

abbrev pub found : List ℕ → List (List ℕ) → Option ℕ → ResolveResult
found storage endpoints index = record {
  success = true;
  storage = storage;
  error = no_error;
  endpoints = endpoints;
  selected_index = index;
}

-- What is done with the candidate.
unfoldable pub finish : ResolveOptions → List (List ℕ) → Option ℕ → AddrInfo → ResolveResult
finish o endpoints index ai =
    if ai.ai_family == o.family || o.family == af_unspec
    then (if ltb storage_size (length ai.ai_addr)
        then failure address_too_large endpoints index
        else found ai.ai_addr endpoints index)
    else if o.family == af_inet6 && o.allow_dual_stack && ai.ai_family == af_inet
    then found (populate_ipv4_mapped ai.ai_addr) endpoints index
    else failure unsupported_family endpoints index

abbrev pub index_in : List (List ℕ) → ℕ → Option ℕ
index_in endpoints index = if ltb index (length endpoints) then some index else none

abbrev pub after_select : ResolveOptions → List (List ℕ) → Option (ℕ × AddrInfo) → ResolveResult
after_select o endpoints none = failure no_matching_family endpoints none
after_select o endpoints (some (index, ai)) = finish o endpoints (index_in endpoints index) ai

abbrev pub hint_family : ResolveOptions → ℕ
hint_family o = if o.family == af_inet6 && o.allow_dual_stack then af_unspec else o.family

abbrev pub after_getaddrinfo : ResolveOptions → ℕ × List AddrInfo → ResolveResult
after_getaddrinfo o (zero, []) = failure no_results [] none
after_getaddrinfo o (suc rc, ais) = failure (getaddrinfo_failed (suc rc)) [] none
after_getaddrinfo o (zero, ai ∷ ais) =
    let endpoints = collect_endpoints (ai ∷ ais) in after_select o endpoints (select o 0 (ai ∷ ais))

abbrev pub is_nil : List ℕ → Bool
is_nil [] = true
is_nil (x ∷ xs) = false

unfoldable pub resolve_core : Resolver → List ℕ → ℕ → ResolveOptions → ResolveResult
resolve_core os host port o =
    let node = strip_brackets host in
    if is_nil node
    then failure empty_host [] none
    else after_getaddrinfo o (os.getaddrinfo node port (hint_family o))
