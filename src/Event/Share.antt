-- ===== src/Event/Share.antt =====
-- event/share.go: who sees an event. A Share is an int.
use sr_server.Prelude.{
  ◌≡◌, Bool, true, false, ◌||◌, if◌then◌else◌, arith, Text, codes, text_eq, ℤ, pos, eq_ℤ,
}

abbrev pub share_in_game : ℤ
share_in_game = pos 0

abbrev pub share_private : ℤ
share_private = pos 1

-- Share.String
unfoldable pub share_string : ℤ → Text
share_string a =
    if eq_ℤ a share_in_game
    then codes "inGame"
    else if eq_ℤ a share_private
    then codes "private"
    else codes "unknown"

-- ShareFromString
unfoldable pub share_from_string : Text → ℤ × Bool
share_from_string share =
    if text_eq share (codes "inGame")
    then (share_in_game, true)
    else if text_eq share (codes "private")
    then (share_private, true)
    else (share_in_game, false)

-- IsShare
unfoldable pub is_share : ℤ → Bool
is_share share = eq_ℤ share share_in_game || eq_ℤ share share_private

-- A valid share comes back from its text, marked as valid; the text of any other number reads as
-- in-game, marked as invalid.
share_from_string-share_string :
    (a : ℤ)
    → share_from_string (share_string a)
      ≡ (if is_share a then (a, true) else (share_in_game, false))
unfolding share_from_string share_string is_share text_eq
share_from_string-share_string a = ground arith
