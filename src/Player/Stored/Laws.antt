-- ===== src/Player/Stored/Laws.antt =====
-- Players come back from redis as they were put in.
use sr_server.Prelude.{◌≡◌, refl, ok, text_eq}
use sr_server.Player.{Player}
use sr_server.Player.Stored.{flatten, scan}

-- What AddFlat writes of a player, ScanStruct reads back as the same player.
pub scan-flatten : {S : Type 0} (p : Player) (s : S) → scan p.id (flatten p) s ≡ (ok p, s)
unfolding scan flatten text_eq
scan-flatten p s = refl
