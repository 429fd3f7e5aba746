-- ===== src/Websocket/Header.antt =====
-- net/websocket.hpp: the helpers of the handshake that read header values. A string is its list of bytes, and
-- `std::tolower` and `std::isspace` are those of the "C" locale.
pub mod Csv
pub mod Subprotocol
mod Examples
use co_wq.Prelude.{
  ℕ, zero, suc, ◌+◌, Bool, true, false, ◌&&◌, ◌||◌, List, [], ◌∷◌, ◌++◌, map, leb, ◌==◌,
  if◌then◌else◌, length,
}

abbrev pub lower_char : ℕ → ℕ
lower_char ch = if leb 65 ch && leb ch 90 then ch + 32 else ch

unfoldable pub to_lower : List ℕ → List ℕ
to_lower input = map lower_char input

abbrev pub is_space : ℕ → Bool
is_space ch = (ch == 32) || (leb 9 ch && leb ch 13)

-- The first loop of `trim`, which moves `begin`.
unfoldable pub trim_begin : List ℕ → List ℕ
trim_begin [] = []
trim_begin (c ∷ cs) = if is_space c then trim_begin cs else c ∷ cs

abbrev pub drop_blank : ℕ → List ℕ → List ℕ
drop_blank c [] = if is_space c then [] else c ∷ []
drop_blank c (d ∷ ds) = c ∷ d ∷ ds

-- The second, which moves `end`: a space goes if nothing is left behind it.
unfoldable pub trim_end : List ℕ → List ℕ
trim_end [] = []
trim_end (c ∷ cs) = drop_blank c (trim_end cs)

unfoldable pub trim : List ℕ → List ℕ
trim input = trim_end (trim_begin input)

-- `end = value.find(',', start)`: the token up to the first comma or the end, and the value from
-- `end + 1` on.
unfoldable pub find_comma : List ℕ → List ℕ × List ℕ
find_comma [] = ([], [])
find_comma (c ∷ cs) = let rest = find_comma cs in if c == 44 then ([], cs) else (c ∷ rest.0, rest.1)

-- `while (start < value.size())`, on the value from `start` on. A round passes a byte at least.
pub csv_loop : ℕ → List ℕ → List (List ℕ)
csv_loop zero value = []
csv_loop (suc fuel) [] = []
csv_loop (suc fuel) (c ∷ cs) =
    let token = find_comma (c ∷ cs) in trim token.0 ∷ csv_loop fuel token.1

pub parse_header_csv : List ℕ → List (List ℕ)
parse_header_csv value = csv_loop (length value) value

-- `==` of two strings.
abbrev pub same : List ℕ → List ℕ → Bool
same [] [] = true
same [] (y ∷ ys) = false
same (x ∷ xs) [] = false
same (x ∷ xs) (y ∷ ys) = if x == y then same xs ys else false

-- "upgrade"
abbrev pub upgrade_token : List ℕ
upgrade_token = 117 ∷ 112 ∷ 103 ∷ 114 ∷ 97 ∷ 100 ∷ 101 ∷ []

unfoldable pub upgrade_loop : ℕ → List ℕ → Bool
upgrade_loop zero value = false
upgrade_loop (suc fuel) [] = false
upgrade_loop (suc fuel) (c ∷ cs) =
    let token = find_comma (c ∷ cs) in
    let later = upgrade_loop fuel token.1 in
    if same (to_lower (trim token.0)) upgrade_token then true else later

unfoldable pub connection_contains_upgrade : List ℕ → Bool
connection_contains_upgrade header = upgrade_loop (length header) header

-- The inner loop, over the server's protocols, with what the outer one does next as `next`.
pub find_supported : List ℕ → List (List ℕ) → List ℕ → List ℕ
find_supported sp [] next = next
find_supported sp (supported ∷ ss) next =
    if same (to_lower sp) (to_lower supported) then supported else find_supported sp ss next

pub pick_subprotocol : List (List ℕ) → List (List ℕ) → List ℕ
pick_subprotocol [] server_protocols = []
pick_subprotocol (sp ∷ sps) server_protocols =
    find_supported sp server_protocols (pick_subprotocol sps server_protocols)
