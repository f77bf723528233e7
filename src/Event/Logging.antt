-- ===== src/Event/Logging.antt =====
-- event/event.go: the search for an event's type in its JSON text. In the text that json.Marshal
-- writes for an event the first match of the pattern is the field `ty` of the core.
use sr_server.Prelude.{Option, some, Text, codes, ◌∷◌}
use sr_server.Json.{Json, str, obj, get_field}

text_or : Text → Option Json → Text
text_or other (some (str (c ∷ s))) = c ∷ s
text_or other _ = other

-- ParseTy
unfoldable pub parse_ty : Json → Text
unfolding text_or
parse_ty (obj fs) = text_or (codes "??") (get_field (codes "ty") fs)
parse_ty _ = codes "??"
