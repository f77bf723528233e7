-- ===== src/Routes/Game/Owned.antt =====
-- Who may change an event: the requests to delete, modify and share one.
use sr_server.Prelude.{
  ◌≡◌, ◌≢◌, false, not, List, [], ◌∷◌, Text, codes, text_eq, text_eq_iff, ℤ, ok, arith,
}
use sr_server.Json.{Json, Fields, get_field, read_int}
use sr_server.Redis.{Redis}
use sr_server.Redis.Documented.{View, Documented}
use sr_server.Session.{Session}
use sr_server.Event.{Event, get_id, get_player_id, get_type, event_type_player_join}
use sr_server.Event.Codec.{parse}
use sr_server.Event.Events.Laws.{newest_of}
use sr_server.Game.EventManager.Deleting.{of_id, removed}
use sr_server.Routes.{Answer, Request, request_session, read_body_json}
use sr_server.Routes.Ensures.{Ensures}

-- The event is read from the history of the session's game by its ID, it is no join, and its player
-- is the session's.
abbrev pub Owns : View → Session → ℤ → Event → Type 0
Owns v sess id evt =
    (text : Json) × (newest_of (of_id sess.game_id id v) ≡ ok text)
    × (parse text ≡ ok evt)
    × (get_player_id evt ≡ sess.player_id)
    × (get_type evt ≢ event_type_player_join)

-- The request comes with a session and asks for the event of an ID.
abbrev pub Asks : (r : Redis) → r.Db → List Text → Request → Session → ℤ → Type 0
Asks r d names request sess id =
    ((request_session r request d).0 ≡ ok sess)
    × (fs : Fields) × (read_body_json names request ≡ ok fs)
    × (read_int (get_field (codes "id") fs) ≡ ok id)

pub same_text : (s t : Text) → not (text_eq s t) ≡ false → s ≡ t
same_text s t h = (text_eq_iff s t).0 (ground arith)

pub other_text : (s t : Text) → text_eq s t ≡ false → s ≢ t
other_text s t h e = ground (arith, text_eq_iff s t)

module _ (r : Redis) (doc : Documented r) where
  open doc use {view}

  -- What a deletion that succeeds comes with and does.
  unfoldable pub Deleted : Request → r.Db → Answer → r.Db → Type 0
  Deleted request d a d' =
      (sess : Session) × (id : ℤ) × (evt : Event) × Asks r d (codes "id" ∷ []) request sess id
      × Owns (view d) sess id evt
      × ((view d').zsets ≡ removed sess.game_id (get_id evt) (view d))
