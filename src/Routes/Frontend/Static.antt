-- ===== src/Routes/Frontend/Static.antt =====
-- What handleFrontendStatic serves.
use sr_server.Prelude.{
  some-inj, ℕ, ◌-◌, ◌≡◌, ◌≢◌, ◌≤◌, refl, sym, ap, subst, ◌∙◌, ◌⊎◌, inl, inr, Bool, true, false,
  Bool-cases, not, ◌&&◌, ◌||◌, Option, none, some, [], ◌∷◌, ◌++◌, any, All, count, count-append,
  length, take, drop, ltb, ◌==◌, ==_iff, Text, codes, text_eq, text_eq_iff, has_prefix, ok, bind-ok,
  pure-ok, arith, if◌then◌else◌,
}
use sr_server.Config.{split}
use sr_server.Routes.{aborted, stop_if}
use sr_server.Routes.Ensures.{Ensures, Ensures-stop_if}
use sr_server.Routes.Frontend.{
  is_slash, trimmed, invalid_path, split_path, sub_dir, or_crashed, or_500, valid_static_subdirs,
  etag_for_file, FileRequest, Served, open_frontend_file, handle_frontend_static,
}

-- A text that is empty or ends in a slash.
abbrev pub IsDir : Text → Type 0
IsDir [] = Unit
IsDir (c ∷ []) = is_slash c ≡ true
IsDir (c ∷ d ∷ s) = IsDir (d ∷ s)

abbrev pub IsSplit : Text → Text × Text → Type 0
IsSplit path p = (p.0 ++ p.1 ≡ path) × IsDir p.0 × All (λ c. is_slash c ≡ false) p.1

split_path-IsSplit : (path : Text) → IsSplit path (split_path path)
unfolding split_path
split_path-IsSplit [] = (refl, tt, tt)
split_path-IsSplit (c ∷ s) = step c s (split_path s) (split_path-IsSplit s)
  where
    step :
        (c : ℕ) (s : Text) (p : Text × Text)
        → IsSplit s p
        → IsSplit (c ∷ s) (elim p.0 [
          | [] ↦ if is_slash c then (c ∷ [], p.1) else ([], c ∷ p.1)
          | d ∷ dir ↦ (c ∷ d ∷ dir, p.1)
        ])
    step c s ([], name) (whole, dir, plain) = elim (Bool-cases (is_slash c)) [
      | inl slash ↦ rw (slash) (ap (◌∷◌ c) whole, slash, plain)
      | inr other ↦ rw (other) (ap (◌∷◌ c) whole, tt, (other, plain))
    ]
    step c s (d ∷ ds, name) (whole, dir, plain) = (ap (◌∷◌ c) whole, dir, plain)

abbrev static : Text
static = codes "/static"

static_prefix :
    (p dir name : Text)
    → has_prefix (dir ++ name) p ≡ true
    → length p ≤ length dir
    → dir ≡ p ++ drop (length p) dir
unfolding has_prefix
static_prefix [] dir name h long = refl
static_prefix (b ∷ p) [] name h long = absurd (omega arith)
static_prefix (b ∷ p) (a ∷ dir) name h long = ground (arith, static_prefix p dir name)

last_slash : (x : ℕ) (r : Text) → IsDir (x ∷ r) → x ∷ r ≡ take (length r) (x ∷ r) ++ b'/' ∷ []
last_slash x [] h = ground arith
last_slash x (y ∷ r) h = ap (◌∷◌ x) (last_slash y r h)

IsDir-tail : (p : Text) (x : ℕ) (r : Text) → IsDir (p ++ x ∷ r) → IsDir (x ∷ r)
IsDir-tail [] x r h = h
IsDir-tail (c ∷ []) x r h = h
IsDir-tail (c ∷ d ∷ p) x r h = IsDir-tail (d ∷ p) x r h

-- A directory below "/static" has what sub_dir cuts out of it between two more slashes.
below_static :
    (t sub : Text)
    → IsDir (static ++ t)
    → count is_slash (static ++ t) ≡ 3
    → sub_dir (static ++ t) ≡ some sub
    → count is_slash sub ≡ 0
    → t ≡ b'/' ∷ sub ++ b'/' ∷ []
unfolding sub_dir
below_static [] sub dir three cut plain = absurd (omega (arith, three))
below_static (c ∷ []) sub dir three cut plain = cc
below_static (c ∷ x ∷ r) sub dir three cut plain =
    let long : ltb (length (static ++ c ∷ x ∷ r)) 9 ≡ false = ground arith in
    let size : length (static ++ c ∷ x ∷ r) - 9 ≡ length r = omega arith in
    let same : take (length r) (x ∷ r) ≡ sub = some-inj (
      ap (λ n. some (take n (x ∷ r))) (sym size)
      ∙ sym (
          ap (λ b. if b then none else some (take (length (static ++ c ∷ x ∷ r) - 9) (x ∷ r))) long)
      ∙ cut) in
    let whole : x ∷ r ≡ sub ++ b'/' ∷ [] = last_slash x r dir ∙ ap (λ s. s ++ b'/' ∷ []) same in
    let one : count is_slash (x ∷ r) ≡ 1 =
      ap (count is_slash) whole ∙ omega (arith, count-append is_slash sub (b'/' ∷ []), plain) in
    let slash : is_slash c ≡ true = ground (arith, three, one) in
    ap (λ y. y ∷ x ∷ r) ((==_iff c b'/').0 slash) ∙ ap (◌∷◌ b'/') whole

or_crashed-ok :
    {S A : Type 0} (o : Option A) (s t : S) (a : A) → or_crashed o s ≡ (ok a, t) → o ≡ some a
or_crashed-ok none s t a h = cc
or_crashed-ok (some b) s t a h = cc

or_500-ok : {S A : Type 0} (o : Option A) (s t : S) (a : A) → or_500 o s ≡ (ok a, t) → o ≡ some a
or_500-ok none s t a h = cc
or_500-ok (some b) s t a h = cc

-- One of the three directories.
abbrev pub IsSubdir : Text → Type 0
IsSubdir sub = (sub ≡ codes "media") ⊎ (sub ≡ codes "js") ⊎ (sub ≡ codes "css")

found-IsSubdir :
    (sub : Text) → not (any (λ s. text_eq s sub) valid_static_subdirs) ≡ false → IsSubdir sub
found-IsSubdir sub h = ground (
  arith,
  text_eq_iff (codes "media") sub,
  text_eq_iff (codes "js") sub,
  text_eq_iff (codes "css") sub,
)

IsSubdir-plain : (sub : Text) → IsSubdir sub → count is_slash sub ≡ 0
IsSubdir-plain sub (inl e) = rw (e) refl
IsSubdir-plain sub (inr (inl e)) = rw (e) refl
IsSubdir-plain sub (inr (inr e)) = rw (e) refl

refuses : (b : Bool) → not (b && false) ≡ true
refuses true = refl
refuses false = refl

-- The path of a name that leads up is refused.
climbing :
    (valid_utf8 : Text → Bool) (sub : Text)
    → IsSubdir sub
    → (invalid_path valid_utf8 (static ++ b'/' ∷ sub ++ codes "/..") ≡ true)
      × (invalid_path valid_utf8 (static ++ b'/' ∷ sub ++ codes "/.") ≡ true)
unfolding invalid_path trimmed split text_eq
climbing valid_utf8 sub (inl e) = rw (e) (refuses _, refuses _)
climbing valid_utf8 sub (inr (inl e)) = rw (e) (refuses _, refuses _)
climbing valid_utf8 sub (inr (inr e)) = rw (e) (refuses _, refuses _)

long_dir : (dir sub : Text) → sub_dir dir ≡ some sub → 9 ≤ length dir
unfolding sub_dir
long_dir dir sub h = ground arith

joined : (sub name : Text) → (sub ++ b'/' ∷ []) ++ name ≡ sub ++ b'/' ∷ name
joined [] name = refl
joined (c ∷ sub) name = ap (◌∷◌ c) (joined sub name)

-- The parts of a path that the handler has not refused.
accepted :
    (valid_utf8 : Text → Bool) (path sub : Text)
    → has_prefix path static ≡ true
    → (invalid_path valid_utf8 path || not (count is_slash (split_path path).0 == 3)) ≡ false
    → sub_dir (split_path path).0 ≡ some sub
    → IsSubdir sub
    → (path ≡ static ++ b'/' ∷ sub ++ b'/' ∷ (split_path path).1)
      × ((split_path path).1 ≢ codes ".")
      × ((split_path path).1 ≢ codes "..")
accepted valid_utf8 path sub prefix fine cut known =
    let (whole, is_dir, _) = split_path-IsSplit path in
    let dir = (split_path path).0 in
    let name = (split_path path).1 in
    let long = long_dir dir sub cut in
    let t = drop 7 dir in
    let head : dir ≡ static ++ t =
      static_prefix static dir name (subst (λ p. has_prefix p static ≡ true) (sym whole) prefix)
        (omega (arith, long)) in
    let three : count is_slash dir ≡ 3 = ground (arith, fine) in
    let tail : t ≡ b'/' ∷ sub ++ b'/' ∷ [] =
      below_static t sub (subst IsDir head is_dir) (sym (ap (count is_slash) head) ∙ three)
        (sym (ap sub_dir head) ∙ cut) (IsSubdir-plain sub known) in
    let valid : invalid_path valid_utf8 path ≡ false = ground (arith, fine) in
    let parts : path ≡ static ++ b'/' ∷ sub ++ b'/' ∷ name =
      sym whole
      ∙ ap (λ d. d ++ name) (head ∙ ap (λ r. static ++ r) tail)
      ∙ ap (λ r. static ++ b'/' ∷ r) (joined sub name) in
    let leads : (n : Text) → name ≡ n → path ≡ static ++ b'/' ∷ sub ++ b'/' ∷ n =
      λ n e. parts ∙ ap (λ m. static ++ b'/' ∷ sub ++ b'/' ∷ m) e in
    let (up, here) = climbing valid_utf8 sub known in
    (
      parts,
      (λ e. let no = sym valid ∙ ap (invalid_path valid_utf8) (leads (codes ".") e) ∙ here in cc),
      (λ e. let no = sym valid ∙ ap (invalid_path valid_utf8) (leads (codes "..") e) ∙ up in cc),
    )

-- What openFrontendFile has opened: the file of the path, or the compressed one where that is asked for.
abbrev pub IsOpened : {File : Type 0} → (Text → Option File) → Text → Bool → File → Bool → Type 0
IsOpened files path use_zipped file zipped =
    ((zipped ≡ true) × (use_zipped ≡ true) × (files (path ++ codes ".gz") ≡ some file))
    ⊎ ((zipped ≡ false) × (files path ≡ some file))

open_frontend_file-IsOpened :
    {File : Type 0} (files : Text → Option File) (path : Text) (use_zipped : Bool) (p : File × Bool)
    → (open_frontend_file files path use_zipped false).0 ≡ some p
    → IsOpened files path use_zipped p.0 p.1
unfolding open_frontend_file
open_frontend_file-IsOpened files path use_zipped p h = ground arith

-- What is sent for a request under "/static".
abbrev pub IsStatic :
    {File : Type 0}
    → (Text → Option File)
    → (File → Bool)
    → Bool
    → FileRequest
    → Served File
    → Type 0
IsStatic files stats gzipped q served =
    (sub : Text) × IsSubdir sub
    × (q.path ≡ static ++ b'/' ∷ sub ++ b'/' ∷ served.name)
    × All (λ c. is_slash c ≡ false) served.name
    × (served.name ≢ codes ".")
    × (served.name ≢ codes "..")
    × IsOpened files q.path (gzipped && q.accepts_gzip) served.file served.zipped
    × (stats served.file ≡ true)

-- A request under "/static" that is served is for a name directly in media, js or css that has no
-- slash and is neither "." nor "..", and what is sent is the file of exactly that path, or its
-- compressed form where the server and the client allow that.
pub handle_frontend_static-ok :
    {File S : Type 0} (files : Text → Option File) (stats : File → Bool) (gzipped : Bool)
    (q : FileRequest) (valid_utf8 : Text → Bool) (s t : S) (served : Served File)
    → has_prefix q.path static ≡ true
    → handle_frontend_static files stats gzipped q valid_utf8 s ≡ (ok served, t)
    → IsStatic files stats gzipped q served
unfolding handle_frontend_static Ensures
handle_frontend_static-ok {File} {S} files stats gzipped q valid_utf8 s t served prefix h =
    let p = split_path q.path in
    let bad = invalid_path valid_utf8 q.path || not (count is_slash p.0 == 3) in
    let (_, s1, h1, k1) = bind-ok (stop_if bad (aborted 400)) _ s h in
    let (sub, s2, h2, k2) = bind-ok (or_crashed (sub_dir p.0)) _ s1 k1 in
    let absent = not (any (λ x. text_eq x sub) valid_static_subdirs) in
    let (_, s3, h3, k3) = bind-ok (stop_if absent (aborted 404)) _ s2 k2 in
    let (etag, s4, h4, k4) = bind-ok (or_crashed (etag_for_file sub p.1)) _ s3 k3 in
    let found = (open_frontend_file files q.path (gzipped && q.accepts_gzip) false).0 in
    let (opened, s5, h5, k5) = bind-ok (or_500 found) _ s4 k4 in
    let (_, s6, h6, k6) = bind-ok (stop_if (not (stats opened.0)) (aborted 500)) _ s5 k5 in
    let known = found-IsSubdir sub ((Ensures-stop_if absent (aborted 404) s2 tt s3 h3).0) in
    let (parts, dot, dots) =
      accepted valid_utf8 q.path sub prefix ((Ensures-stop_if bad (aborted 400) s tt s1 h1).0)
        (or_crashed-ok (sub_dir p.0) s1 s2 sub h2) known in
    pure-ok (λ x _. IsStatic files stats gzipped q x) {s = s6} k6
      (
        sub,
        known,
        parts,
        (split_path-IsSplit q.path).2,
        dot,
        dots,
        open_frontend_file-IsOpened files q.path (gzipped && q.accepts_gzip) opened
            (or_500-ok found s4 s5 opened h5),
        ground (arith, (Ensures-stop_if (not (stats opened.0)) (aborted 500) s5 tt s6 h6).0),
      )
