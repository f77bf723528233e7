-- ===== src/Samples.antt =====
-- A game of one event, for the examples: its player has a session.
use sr_server.Prelude.{false, none, [], ◌∷◌, Text, codes, text_eq, pos, if◌then◌else◌}
use sr_server.Redis.{Hash, text, flag}
use sr_server.Redis.Memory.{Store}
use sr_server.Player.{Player}
use sr_server.Event.{Event, roll}
use sr_server.Event.Codec.{marshal}

abbrev pub player : Player
player = record {
  id = codes "p1";
  name = codes "Ada";
  hue = pos 10;
  username = codes "ada";
  connections = pos 1;
  online_mode = pos 0;
}

abbrev pub event : Event
event = roll (record {
  core = record {
    id = pos 5;
    ty = codes "roll";
    edit = pos 0;
    share = pos 0;
    player_id = codes "p1";
    player_name = codes "Ada";
  };
  title = codes "hack";
  dice = pos 5 ∷ pos 2 ∷ [];
  glitchy = pos 0;
})

abbrev pub hashes_of : Text → Hash
hashes_of k =
    if text_eq k (codes "session:s1")
    then (codes "gameID", text (codes "g"))
      ∷ (codes "playerID", text (codes "p1"))
      ∷ (codes "persist", flag false)
      ∷ (codes "username", text (codes "ada"))
      ∷ []
    else if text_eq k (codes "player:p1")
    then (codes "name", text (codes "Ada")) ∷ (codes "uname", text (codes "ada")) ∷ []
    else []

abbrev pub store : Store
store = record {
  view = record {
    zsets = λ k.
        if text_eq k (codes "history:g")
        then record { score = pos 5; member = marshal event } ∷ []
        else [];
    hashes = hashes_of;
    sets = λ _. [];
    counters = λ _. none;
    ttls = λ _. none;
    published = [];
    listeners = λ _. 0;
  };
  queued = [];
  asked = [];
}
