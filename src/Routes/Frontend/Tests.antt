-- ===== src/Routes/Frontend/Tests.antt =====
-- The files of a small frontend.
use sr_server.Prelude.{
  ◌≡◌, ◌↔◌, refl, true, Bool, Option, none, some, Text, codes, text_eq, has_prefix, ok,
  if◌then◌else◌,
}
use sr_server.Config.{split}
use sr_server.Routes.{stop_if}
use sr_server.Routes.Frontend.{
  FileRequest, Served, etag_for_file, ext, invalid_path, split_path, sub_dir, open_frontend_file,
  base_path, handle_frontend_static, handle_frontend_base,
}
use sr_server.Routes.Frontend.Etags.{IsShort, etag_for_file-panics}
use sr_server.Routes.Frontend.Static.{IsStatic, handle_frontend_static-ok}
use sr_server.Routes.Frontend.Base.{IsFound, handle_frontend_base-serves}

abbrev files : Text → Option Text
files p =
    if text_eq p (codes "index.html")
    then some (codes "home")
    else if text_eq p (codes "/static/js/main.01234567.js.gz")
    then some (codes "script")
    else none

abbrev readable : Text → Bool
readable _ = true

abbrev script : FileRequest
script = record { path = codes "/static/js/main.01234567.js"; accepts_gzip = true }

abbrev sent : Served Text
sent = record {
  file = codes "script";
  zipped = true;
  name = codes "main.01234567.js";
  etag = codes "01234567.js";
}

sends : handle_frontend_static files readable true script readable tt ≡ (ok sent, tt)
unfolding handle_frontend_static stop_if invalid_path text_eq split split_path sub_dir etag_for_file
    has_prefix open_frontend_file ext
sends = refl

handle_frontend_static-ok_example : IsStatic files readable true script sent
unfolding has_prefix
handle_frontend_static-ok_example =
    handle_frontend_static-ok files readable true script readable tt tt sent refl sends

etag_for_file-panics_example :
    (etag_for_file (codes "media") (codes "a.png") ≡ none) ↔ IsShort (codes "media") (codes "a.png")
etag_for_file-panics_example = etag_for_file-panics (codes "media") (codes "a.png")

abbrev join_page : FileRequest
join_page = record { path = codes "/join/g"; accepts_gzip = true }

handle_frontend_base-serves_example :
    (served : Served Text) × (handle_frontend_base files readable true join_page tt
      ≡ (ok served, tt))
    × IsFound files
        (base_path files readable true join_page).0
        (base_path files readable true join_page).1
        true
        served
unfolding text_eq
handle_frontend_base-serves_example =
    handle_frontend_base-serves files readable true join_page (codes "home") tt refl (λ f. refl)
