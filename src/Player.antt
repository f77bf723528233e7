-- ===== src/Player.antt =====
-- player/player.go: the player record, how others see it, and the checks on it. What it keeps in
-- redis is in Player/Stored.
mod Tests
pub mod Laws
pub mod Stored
use sr_server.Prelude.{
  ℕ, Bool, true, false, not, ◌&&◌, ◌||◌, List, [], ◌∷◌, ltb, ◌==◌, any, if◌then◌else◌, length, Text,
  codes, ℤ, pos, ltb_ℤ, eq_ℤ,
}
use sr_server.Json.{Json, bool, int, str, obj, end, field}

-- OnlineModeAuto, OnlineModeOnline, OnlineModeOffline
abbrev pub online_mode_auto : ℤ
online_mode_auto = pos 0

abbrev pub online_mode_online : ℤ
online_mode_online = pos 1

abbrev pub online_mode_offline : ℤ
online_mode_offline = pos 2

pub record Player : Type 0 where
  pub id : Text
  pub name : Text
  pub hue : ℤ
  pub username : Text
  pub connections : ℤ
  pub online_mode : ℤ

pub record Info : Type 0 where
  pub id : Text
  pub name : Text
  pub hue : ℤ
  pub online : Bool

unfoldable pub is_online : Player → Bool
is_online p =
    if eq_ℤ p.online_mode online_mode_auto
    then ltb_ℤ (pos 0) p.connections
    else if eq_ℤ p.online_mode online_mode_online
    then true
    else if eq_ℤ p.online_mode online_mode_offline
    then false
    else false

-- Player.Info
unfoldable pub info : Player → Info
info p = record { id = p.id; name = p.name; hue = p.hue; online = is_online p }

-- the JSON of Info
unfoldable pub info_json : Info → Json
info_json i = obj (
    field (codes "id") (str i.id) (
      field (codes "name") (str i.name)
        (field (codes "hue") (int i.hue) (field (codes "online") (bool i.online) end))))

-- Player.MarshalJSON
unfoldable pub marshal_json : Player → Json
marshal_json p = obj (
    field (codes "id") (str p.id) (
      field (codes "name") (str p.name) (
        field (codes "hue") (int p.hue) (
          field (codes "username") (str p.username) (
            field (codes "online") (bool (is_online p))
              (field (codes "onlineMode") (int p.online_mode) end))))))

-- Make, with the random ID and hue that it draws
unfoldable pub make : Text → ℤ → Text → Text → Player
make id hue username name = record {
  id = id;
  name = name;
  hue = hue;
  username = username;
  connections = pos 0;
  online_mode = online_mode_auto;
}

-- strings.ContainsAny(name, "\r\n")
abbrev has_newline : Text → Bool
has_newline = any (λ c. c == 13 || c == 10)

unfoldable pub valid_name : Text → Bool
valid_name name = ltb 0 (length name) && ltb (length name) 32 && not (has_newline name)

-- strings.TrimSpace on bytes; of the white space of Unicode only the ASCII part is taken off.
abbrev is_space : ℕ → Bool
is_space c = c == 32 || (ltb 8 c && ltb c 14)

trim_left : Text → Text
trim_left [] = []
trim_left (c ∷ s) = let rest = trim_left s in if is_space c then rest else c ∷ s

add_unless_blank : ℕ → Text → Text
add_unless_blank c [] = if is_space c then [] else c ∷ []
add_unless_blank c (d ∷ r) = c ∷ d ∷ r

trim_right : Text → Text
unfolding add_unless_blank
trim_right [] = []
trim_right (c ∷ s) = add_unless_blank c (trim_right s)

unfoldable pub trim_space : Text → Text
unfolding trim_left trim_right
trim_space s = trim_right (trim_left s)
