-- ===== src/Websocket/Header/Examples.antt =====
-- The header helpers at concrete inputs: the client asks for "mqtt" and "CHAT", the server has "chat".
use co_wq.Prelude.{ℕ, ◌≡◌, refl, true, List, [], ◌∷◌}
use co_wq.Websocket.Header.{
  to_lower, parse_header_csv, pick_subprotocol, connection_contains_upgrade, find_comma, trim,
  trim_begin, trim_end, upgrade_loop, find_supported,
}
use co_wq.Websocket.Header.Csv.{
  any_upgrade, connection_contains_upgrade-any, join_csv, AllTokens, parse_header_csv-join_csv,
}

abbrev mqtt : List ℕ
mqtt = 109 ∷ 113 ∷ 116 ∷ 116 ∷ []

abbrev chat_upper : List ℕ
chat_upper = 67 ∷ 72 ∷ 65 ∷ 84 ∷ []

abbrev chat : List ℕ
chat = 99 ∷ 104 ∷ 97 ∷ 116 ∷ []

picked : pick_subprotocol (mqtt ∷ chat_upper ∷ []) (chat ∷ []) ≡ chat
unfolding pick_subprotocol find_supported to_lower
picked = refl

-- ", Upgrade " with a stray comma
stray_comma :
    connection_contains_upgrade (44 ∷ 32 ∷ 85 ∷ 112 ∷ 103 ∷ 114 ∷ 97 ∷ 100 ∷ 101 ∷ 32 ∷ []) ≡ true
unfolding connection_contains_upgrade upgrade_loop find_comma trim trim_begin trim_end to_lower
stray_comma = refl

connection_contains_upgrade-any_example :
    connection_contains_upgrade chat ≡ any_upgrade (parse_header_csv chat)
connection_contains_upgrade-any_example = connection_contains_upgrade-any chat

tokens-AllTokens : AllTokens (mqtt ∷ chat ∷ [])
tokens-AllTokens = (
  ((refl, refl), ((refl, refl), ((refl, refl), ((refl, refl), tt)))),
  (((refl, refl), ((refl, refl), ((refl, refl), ((refl, refl), tt)))), tt),
)

parse_header_csv-join_csv_example :
    parse_header_csv (join_csv (mqtt ∷ chat ∷ [])) ≡ mqtt ∷ chat ∷ []
parse_header_csv-join_csv_example = parse_header_csv-join_csv (mqtt ∷ chat ∷ []) tokens-AllTokens
