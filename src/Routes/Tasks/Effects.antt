-- ===== src/Routes/Tasks/Effects.antt =====
-- What the administrative requests do to the data.
use sr_server.Prelude.{◌≡◌, Bool, none, List, [], any, Text, text_eq, if◌then◌else◌}
use sr_server.Json.{Json}
use sr_server.Redis.{Redis}
use sr_server.Redis.Documented.{View, Documented}
use sr_server.Routes.Ensures.{Ensures}

abbrev pub listed : Text → List Text → Bool
listed k = any (λ x. text_eq x k)

-- The keys are gone, and all else is as it was.
abbrev pub Cleared : List Text → View → View → Type 0
Cleared ks v v' =
    ((k : Text) → v'.hashes k ≡ (if listed k ks then [] else v.hashes k))
    × ((k : Text) → v'.zsets k ≡ (if listed k ks then [] else v.zsets k))
    × ((k : Text) → v'.sets k ≡ (if listed k ks then [] else v.sets k))
    × ((k : Text) → v'.counters k ≡ (if listed k ks then none else v.counters k))
    × (v'.published ≡ v.published)
