-- ===== src/WebSocket/Handshake/Accepting.antt =====
-- src/server/WebSocket.cpp: what `pickSubprotocol` may answer.
use geruest.Prelude.{
  ◌≡◌, refl, ◌⊎◌, inl, inr, true, ◌||◌, List, [], ◌∷◌, Option, none, some, Text, is_empty, if_elim,
  arith,
}
use geruest.Http.{trim_sv, split_on}
use geruest.WebSocket.Handshake.{
  equals_no_case, any_token, find_offered, first_offered, pick_subprotocol,
}

abbrev pub Listed : Text → List Text → Type 0
Listed offered [] = ⊥
Listed offered (o ∷ more) = (o ≡ offered) ⊎ Listed offered more

abbrev IsFound : Text → List Text → Option Text → Type 0
IsFound token server_offered none = Unit
IsFound token server_offered (some offered) =
    Listed offered server_offered × (equals_no_case token offered ≡ true)

find_offered-IsFound :
    (token : Text) (server_offered : List Text)
    → IsFound token server_offered (find_offered token server_offered)
unfolding find_offered
find_offered-IsFound token [] = tt
find_offered-IsFound token (o ∷ more) =
    if_elim (IsFound token (o ∷ more)) (equals_no_case token o) _ _ (λ h. (inl refl, h))
      (λ _. behind (find_offered token more) (find_offered-IsFound token more))
  where
    behind : (found : Option Text) → IsFound token more found → IsFound token (o ∷ more) found
    behind none h = tt
    behind (some offered) (h, k) = (inr h, k)

-- Nothing, or an offer of the server that the client has asked for.
abbrev pub IsAgreed : List Text → List Text → Text → Type 0
IsAgreed pieces server_offered picked =
    (picked ≡ []) ⊎ (Listed picked server_offered × (any_token picked pieces ≡ true))

first_offered-IsAgreed :
    (pieces server_offered : List Text)
    → IsAgreed pieces server_offered (first_offered pieces server_offered)
unfolding first_offered any_token
first_offered-IsAgreed [] server_offered = inl refl
first_offered-IsAgreed (piece ∷ pieces) server_offered =
    by_found (find_offered (trim_sv piece) server_offered)
      (find_offered-IsFound (trim_sv piece) server_offered)
      (first_offered-IsAgreed pieces server_offered)
  where
    by_found :
        (found : Option Text)
        → IsFound (trim_sv piece) server_offered found
        → IsAgreed pieces server_offered (first_offered pieces server_offered)
        → IsAgreed
            (piece ∷ pieces)
            server_offered
            (elim found [ none ↦ first_offered pieces server_offered | some offered ↦ offered ])
    by_found none h (inl k) = inl k
    by_found none h (inr (k, l)) = inr (k, ground (arith, l))
    by_found (some offered) (h, k) l = inr (h, ground (arith, k))

-- The subprotocol of a handshake is none, or one that the server offers and that is, but for the case
-- of its letters, a token of the client's header.
pub pick_subprotocol-IsAgreed :
    (client_header : Text) (server_offered : List Text)
    → IsAgreed
        (split_on b',' client_header)
        server_offered
        (pick_subprotocol client_header server_offered)
unfolding pick_subprotocol
pick_subprotocol-IsAgreed client_header server_offered =
    if_elim (IsAgreed (split_on b',' client_header) server_offered)
      (is_empty client_header || is_empty server_offered) _ _ (λ _. inl refl)
      (λ _. first_offered-IsAgreed (split_on b',' client_header) server_offered)
