-- ===== src/Redis/Documented/Hashes.antt =====
-- Fields of hashes: what was put is found.
use sr_server.Prelude.{◌≡◌, some, [], ◌∷◌, Text, text_eq_refl, text_eq_iff, find, arith}
use sr_server.Redis.{Hash, Value}
use sr_server.Redis.Documented.{put_field}

pub find-put_field : (f : Text) (x : Value) (h : Hash) → find f (put_field f x h) ≡ some x
unfolding put_field
find-put_field f x [] = ground (arith, text_eq_refl f)
find-put_field f x ((g, y) ∷ h) =
    ground (arith, text_eq_refl f, text_eq_iff g f, find-put_field f x h)
