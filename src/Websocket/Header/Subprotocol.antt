-- ===== src/Websocket/Header/Subprotocol.antt =====
-- The subprotocol that `pick_subprotocol` chooses.
use co_wq.Prelude.{
  ℕ, ◌≡◌, refl, ap, ◌⊎◌, inl, inr, Bool, true, false, List, [], ◌∷◌, ◌++◌, Bool-cases,
}
use co_wq.Websocket.Header.{to_lower, same, find_supported, pick_subprotocol}

-- The two names agree, but for the case of their letters.
abbrev pub agree : List ℕ → List ℕ → Bool
agree sp supported = same (to_lower sp) (to_lower supported)

-- The client's `sp` is none of the server's protocols.
abbrev pub NoneAgrees : List ℕ → List (List ℕ) → Type 0
NoneAgrees sp [] = Unit {0}
NoneAgrees sp (s ∷ ss) = (agree sp s ≡ false) × NoneAgrees sp ss

abbrev pub NoneShared : List (List ℕ) → List (List ℕ) → Type 0
NoneShared [] ss = Unit {0}
NoneShared (sp ∷ sps) ss = NoneAgrees sp ss × NoneShared sps ss

-- `supported` is the server's first name for `wanted`, the first of the client's protocols that the
-- server has.
pub record Chosen (client server : List (List ℕ)) (supported : List ℕ) : Type 0 where
  pub wanted : List ℕ
  pub before : List (List ℕ)
  pub after : List (List ℕ)
  pub client_split : client ≡ before ++ wanted ∷ after
  pub others : NoneShared before server
  pub earlier : List (List ℕ)
  pub later : List (List ℕ)
  pub server_split : server ≡ earlier ++ supported ∷ later
  pub first : NoneAgrees wanted earlier
  pub agrees : agree wanted supported ≡ true

-- The result of the inner loop.
record Found (sp : List ℕ) (server : List (List ℕ)) (result : List ℕ) : Type 0 where
  earlier : List (List ℕ)
  later : List (List ℕ)
  server_split : server ≡ earlier ++ result ∷ later
  first : NoneAgrees sp earlier
  agrees : agree sp result ≡ true

find_supported-Found :
    (sp : List ℕ) (server : List (List ℕ)) (next : List ℕ)
    → Found sp server (find_supported sp server next)
      ⊎ (NoneAgrees sp server × (find_supported sp server next ≡ next))
unfolding find_supported
find_supported-Found sp [] next = inr (tt, refl)
find_supported-Found sp (s ∷ ss) next = elim (Bool-cases (agree sp s)) [
  | inl hit ↦
      rw hit
        (inl (record { earlier = []; later = ss; server_split = refl; first = tt; agrees = hit }))
  | inr miss ↦ rw miss (elim (find_supported-Found sp ss next) [
    | inl f ↦ inl (record {
      earlier = s ∷ f.earlier;
      later = f.later;
      server_split = ap (λ l. s ∷ l) f.server_split;
      first = (miss, f.first);
      agrees = f.agrees;
    })
    | inr (none, e) ↦ inr ((refl, none), e)
  ])
]

-- The client's order decides: what is picked is the server's name for the first protocol of the client
-- that the server has, in any case of letters. Where they share none, the result is the empty name.
pub pick_subprotocol-Chosen :
    (client server : List (List ℕ))
    → Chosen client server (pick_subprotocol client server)
      ⊎ (NoneShared client server × (pick_subprotocol client server ≡ []))
unfolding pick_subprotocol
pick_subprotocol-Chosen [] server = inr (tt, refl)
pick_subprotocol-Chosen (sp ∷ sps) server =
    elim (find_supported-Found sp server (pick_subprotocol sps server)) [
      | inl f ↦ inl (record {
        wanted = sp;
        before = [];
        after = sps;
        client_split = refl;
        others = tt;
        earlier = f.earlier;
        later = f.later;
        server_split = f.server_split;
        first = f.first;
        agrees = f.agrees;
      })
      | inr (none, e) ↦ rw e (elim (pick_subprotocol-Chosen sps server) [
        | inl c ↦ inl (record {
          wanted = c.wanted;
          before = sp ∷ c.before;
          after = c.after;
          client_split = ap (λ l. sp ∷ l) c.client_split;
          others = (none, c.others);
          earlier = c.earlier;
          later = c.later;
          server_split = c.server_split;
          first = c.first;
          agrees = c.agrees;
        })
        | inr (nones, empty) ↦ inr ((none, nones), empty)
      ])
    ]
