-- ===== src/Player/Laws.antt =====
-- The checks of player/player.go against their descriptions.
use sr_server.Prelude.{
  ◌≤◌, ◌≡◌, ◌≢◌, ◌↔◌, ◌⊎◌, true, [], ◌∷◌, length, All, any, ◌==◌, ◌||◌, false, arith, Text, pos,
  ltb_ℤ,
}
use sr_server.Player.{Player, is_online, valid_name, info}

no_newline :
    (name : Text)
    → (any (λ c. c == 13 || c == 10) name ≡ false) ↔ All (λ c. (c ≢ 13) × (c ≢ 10)) name
no_newline [] = ground arith
no_newline (c ∷ name) = ground (arith, no_newline name)

-- A player's name is valid exactly when it has from 1 to 31 bytes and none is a carriage return or
-- a newline.
valid_name_iff :
    (name : Text)
    → (valid_name name ≡ true)
      ↔ ((1 ≤ length name) × (length name ≤ 31) × All (λ c. (c ≢ 13) × (c ≢ 10)) name)
unfolding valid_name
valid_name_iff name = ground (arith, no_newline name)

-- A player is seen as online exactly when the mode is "online", or the mode is "auto" and a
-- connection is open; the info that other players get says the same.
is_online_iff :
    (p : Player)
    → ((is_online p ≡ true) ↔ (
        (p.online_mode ≡ pos 1) ⊎ ((p.online_mode ≡ pos 0) × (ltb_ℤ (pos 0) p.connections ≡ true))))
      × ((info p).online ≡ is_online p)
unfolding is_online info
is_online_iff p = ground arith
