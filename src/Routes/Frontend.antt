-- ===== src/Routes/Frontend.antt =====
-- routes/frontend.go: the files of the frontend. `files` is what os.Open gives for a path below
-- config.FrontendBasePath, `stats` whether Stat succeeds; http.ServeContent then sends the file.
mod Tests
pub mod Etags
pub mod Static
pub mod Base
use sr_server.Prelude.{
  ℕ, zero, suc, ◌+◌, ◌-◌, Bool, true, false, not, ◌&&◌, ◌||◌, Option, none, some, List, [], ◌∷◌,
  ◌++◌, all, any, count, length, take, drop, ltb, ◌==◌, if◌then◌else◌, Text, codes, text_eq,
  has_prefix, Exec, pure, raise, ◌>>=◌, ◌>>◌,
}
use mathlib.Core.List.{reverse}
use sr_server.Config.{split}
use sr_server.Routes.{Stop, aborted, crashed, stop_if, http_bad_request, http_not_found}

abbrev pub hash_length : ℕ
hash_length = 8

abbrev pub valid_static_subdirs : List Text
valid_static_subdirs = codes "media" ∷ codes "js" ∷ codes "css" ∷ []

abbrev pub is_slash : ℕ → Bool
is_slash c = c == b'/'

-- strings.Trim(path, "/")
trim_left : Text → Text
trim_left [] = []
trim_left (c ∷ s) = let rest = trim_left s in if is_slash c then rest else c ∷ s

unfoldable pub trimmed : Text → Text
unfolding trim_left
trimmed path = reverse (trim_left (reverse (trim_left path)))

-- what fs.ValidPath asks of each element of a path
abbrev pub valid_element : Text → Bool
valid_element [] = false
valid_element (c ∷ s) = not (text_eq (c ∷ s) (codes ".")) && not (text_eq (c ∷ s) (codes ".."))

-- fs.ValidPath, with utf8.ValidString as an argument
abbrev pub valid_path : (Text → Bool) → Text → Bool
valid_path valid_utf8 name =
    valid_utf8 name && (text_eq name (codes ".") || all valid_element (split b'/' name))

unfoldable pub invalid_path : (Text → Bool) → Text → Bool
unfolding trimmed
invalid_path valid_utf8 path =
    text_eq (trimmed path) (codes ".") || not (valid_path valid_utf8 (trimmed path))

-- path.Split: up to the last slash, and after it
unfoldable pub split_path : Text → Text × Text
split_path [] = ([], [])
split_path (c ∷ s) =
    let rest = split_path s in
    elim rest.0 [
      | [] ↦ if is_slash c then (c ∷ [], rest.1) else ([], c ∷ rest.1)
      | d ∷ dir ↦ (c ∷ d ∷ dir, rest.1)
    ]

-- path.Ext of a name that has no slash
unfoldable pub ext : Text → Text
ext [] = []
ext (c ∷ s) = elim (ext s) [ [] ↦ if c == b'.' then c ∷ s else [] | d ∷ t ↦ d ∷ t ]

abbrev pub has_suffix : Text → Text → Bool
has_suffix s suffix = has_prefix (reverse s) (reverse suffix)

-- strings.LastIndex and strings.Index of "."
unfoldable pub last_dot : Text → Option ℕ
last_dot [] = none
last_dot (c ∷ s) = elim (last_dot s) [
  | some n ↦ some (suc n)
  | none ↦ if c == b'.' then some 0 else none
]

unfoldable pub first_dot : Text → Option ℕ
first_dot [] = none
first_dot (c ∷ s) = elim (c == b'.') [
  | true ↦ some 0
  | false ↦ elim (first_dot s) [ none ↦ none | some n ↦ some (suc n) ]
]

-- `name[end - hashLength : end]` with the end `back` bytes before `length`; `none` is the panic on
-- an index below 0
abbrev pub hash_before : Text → ℕ → ℕ → Option Text
hash_before name end back =
    if ltb end (back + hash_length)
    then none
    else some (take hash_length (drop (end - (back + hash_length)) name))

abbrev pub with_ext : Text → Option Text → Option Text
with_ext e none = none
with_ext e (some hash) = some (hash ++ e)

-- the hash of a .css file, `back` bytes of whose name come after it
abbrev pub etag_before : Text → ℕ → Option Text
etag_before name back =
    if ltb back 2 then some [] else with_ext (ext name) (hash_before name (length name) back)

-- where the hash of a .js file begins
unfoldable pub js_offset : Text → ℕ
js_offset name =
    if has_prefix name (codes "runtime-main.")
    then length (codes "runtime-main.")
    else if has_prefix name (codes "main.")
    then length (codes "main.")
    else elim (first_dot name) [ none ↦ 0 | some n ↦ suc n ]

-- the cases of etagForFile; `none` is a panic
unfoldable pub css_etag : Text → Option Text
css_etag name =
    if has_suffix name (codes ".map")
    then etag_before name (length (codes ".chunk.css.map"))
    else if has_suffix name (codes ".css")
    then etag_before name (length (codes ".chunk.css"))
    else some []

unfoldable pub media_etag : Text → Option ℕ → Option Text
media_etag name none = some []
media_etag name (some dot) =
    if ltb (length name + (hash_length + 3)) dot then some [] else hash_before name dot 0

unfoldable pub js_etag : Text → Option Text
unfolding js_offset
js_etag name =
    if ltb (length name) (js_offset name + (hash_length + 3))
    then some []
    else some (take hash_length (drop (js_offset name) name) ++ ext name)

-- etagForFile
unfoldable pub etag_for_file : Text → Text → Option Text
unfolding css_etag media_etag js_etag
etag_for_file sub_folder name =
    if text_eq sub_folder (codes "css")
    then css_etag name
    else if text_eq sub_folder (codes "media")
    then media_etag name (last_dot name)
    else if text_eq sub_folder (codes "js")
    then js_etag name
    else some []

-- `requestDir[len("static/") : len(requestDir)-1]` without its first byte
unfoldable pub sub_dir : Text → Option Text
sub_dir dir = if ltb (length dir) 9 then none else some (take (length dir - 9) (drop 8 dir))

abbrev pub or_crashed : {S A : Type 0} → Option A → Exec S Stop A
or_crashed none = raise crashed
or_crashed (some a) = pure a

abbrev pub or_500 : {S A : Type 0} → Option A → Exec S Stop A
or_500 none = raise (aborted 500)
or_500 (some a) = pure a

-- What of a request the handlers read: its path, and whether it accepts gzip.
pub record FileRequest : Type 0 where
  pub path : Text
  pub accepts_gzip : Bool

-- The file that is sent, whether it is compressed, the name for its type, and the ETag, empty where
-- there is none.
pub record Served (File : Type 0) : Type 0 where
  pub file : File
  pub zipped : Bool
  pub name : Text
  pub etag : Text

module _ {File : Type 0} (files : Text → Option File) where
  abbrev pub if_zipped : Bool → Text → Option File
  if_zipped use_zipped path = if use_zipped then files (path ++ codes ".gz") else none

  -- openFrontendFile: the file with whether it is compressed, or an error; and whether it is index.html
  unfoldable pub open_frontend_file : Text → Bool → Bool → Option (File × Bool) × Bool
  open_frontend_file path use_zipped use_default = elim (if_zipped use_zipped path) [
    | some f ↦ (some (f, true), false)
    | none ↦ elim (files path) [
      | some f ↦ (some (f, false), false)
      | none ↦ elim use_default [
        | false ↦ (none, false)
        | true ↦ elim (if_zipped use_zipped (codes "index.html")) [
          | some f ↦ (some (f, true), true)
          | none ↦ elim (files (codes "index.html")) [
            | some f ↦ (some (f, false), true)
            | none ↦ (none, true)
          ]
        ]
      ]
    ]
  ]

  module _ (stats : File → Bool) (gzipped : Bool) (q : FileRequest) where
    abbrev pub fetch_gzipped : Bool
    fetch_gzipped = gzipped && q.accepts_gzip

    abbrev pub http_internal_error_unless : {S : Type 0} → Bool → Exec S Stop (Unit {0})
    http_internal_error_unless b = stop_if (not b) (aborted 500)

    -- handleFrontendStatic, with config.FrontendGzipped
    unfoldable pub handle_frontend_static : {S : Type 0} → (Text → Bool) → Exec S Stop (Served File)
    handle_frontend_static valid_utf8 = do
      let dir = (split_path q.path).0
      let name = (split_path q.path).1
      http_bad_request (invalid_path valid_utf8 q.path || not (count is_slash dir == 3))
      sub ← or_crashed (sub_dir dir)
      http_not_found (not (any (λ s. text_eq s sub) valid_static_subdirs))
      etag ← or_crashed (etag_for_file sub name)
      opened ← or_500 (open_frontend_file q.path fetch_gzipped false).0
      http_internal_error_unless (stats opened.0)
      pure (record { file = opened.0; zipped = opened.1; name = name; etag = etag })

    -- the path and the name that handleFrontendBase asks for
    unfoldable pub base_path : Text × Text
    base_path =
        let dir = (split_path q.path).0 in
        let name = (split_path q.path).1 in
        if text_eq dir (codes "/") && text_eq name [] || not (count is_slash dir == 1)
        then (codes "/index.html", codes "index.html")
        else (q.path, name)

    -- handleFrontendBase
    unfoldable pub handle_frontend_base : {S : Type 0} → Exec S Stop (Served File)
    unfolding base_path
    handle_frontend_base = do
      let res = open_frontend_file base_path.0 fetch_gzipped true
      opened ← or_500 res.0
      http_internal_error_unless (stats opened.0)
      pure (record {
        file = opened.0;
        zipped = opened.1;
        name = if res.1 then codes "index.html" else base_path.1;
        etag = [];
      })
