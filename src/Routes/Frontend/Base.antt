-- ===== src/Routes/Frontend/Base.antt =====
-- handleFrontendBase always has something to serve.
use sr_server.Prelude.{
  option_cases, ◌≡◌, refl, subst, ◌⊎◌, inl, inr, Bool, true, false, ◌&&◌, Option, none, some, [],
  ◌++◌, Text, codes, ok, if◌then◌else◌, ◌>>=◌, ◌>>◌, not,
}
use sr_server.Routes.{aborted, stop_if}
use sr_server.Routes.Frontend.{
  FileRequest, Served, or_500, if_zipped, open_frontend_file, base_path, handle_frontend_base,
}
use sr_server.Routes.Frontend.Static.{IsOpened}

-- The file of a path where there is one, and else that of index.html.
abbrev pub IsFound :
    {File : Type 0} → (Text → Option File) → Text → Text → Bool → Served File → Type 0
IsFound files path name use_zipped served =
    (IsOpened files path use_zipped served.file served.zipped × (served.name ≡ name))
    ⊎ (IsOpened files (codes "index.html") use_zipped served.file served.zipped
        × (served.name ≡ codes "index.html")
        × (if_zipped files use_zipped path ≡ none)
        × (files path ≡ none))

module _ {File : Type 0} (files : Text → Option File) where
  if_zipped-some :
      (path : Text) (use_zipped : Bool) (f : File)
      → if_zipped files use_zipped path ≡ some f
      → (use_zipped ≡ true) × (files (path ++ codes ".gz") ≡ some f)
  if_zipped-some path true f h = (refl, h)
  if_zipped-some path false f h = cc

  module _ (path : Text) (use_zipped : Bool) (index : File) where
    -- What openFrontendFile does where index.html can be opened.
    abbrev HasDefault : Option (File × Bool) × Bool → Type 0
    HasDefault res =
        (p : File × Bool) × (res.0 ≡ some p)
        × (((res.1 ≡ false) × IsOpened files path use_zipped p.0 p.1)
            ⊎ ((res.1 ≡ true)
                × IsOpened files (codes "index.html") use_zipped p.0 p.1
                × (if_zipped files use_zipped path ≡ none)
                × (files path ≡ none)))

    opened_default :
        files (codes "index.html") ≡ some index
        → HasDefault (open_frontend_file files path use_zipped true)
    unfolding open_frontend_file
    opened_default h = elim (option_cases (if_zipped files use_zipped path)) [
      | inr (f, e) ↦
          let (zips, found) = if_zipped-some path use_zipped f e in
          rw (open_frontend_file, e) ((f, true), refl, inl (refl, inl (refl, zips, found)))
      | inl no_zip ↦ elim (option_cases (files path)) [
        | inr (f, e) ↦
            rw (no_zip, open_frontend_file, e) ((f, false), refl, inl (refl, inr (refl, refl)))
        | inl absent ↦ elim (option_cases (if_zipped files use_zipped (codes "index.html"))) [
          | inr (f, e) ↦
              rw (no_zip, absent, open_frontend_file, e)
                (
                  (f, true),
                  refl,
                  let (zips, found) = if_zipped-some (codes "index.html") use_zipped f e in
                      inr (refl, inl (refl, zips, found), refl, refl),
                )
          | inl plain ↦
              rw (no_zip, absent, open_frontend_file, plain, h)
                ((index, false), refl, inr (refl, inr (refl, refl), refl, refl))
        ]
      ]
    ]

    base_name :
        (name : Text) (stats : File → Bool) (res : Option (File × Bool) × Bool)
        → ((f : File) → stats f ≡ true)
        → HasDefault res
        → {S : Type 0} (s : S)
        → (served : Served File) × ((or_500 res.0 >>= λ opened.
                stop_if (not (stats opened.0)) (aborted 500) >> (λ t. (
                  ok (record {
                    file = opened.0;
                    zipped = opened.1;
                    name = if res.1 then codes "index.html" else name;
                    etag = [];
                  }),
                  t,
                )))
              s
            ≡ (ok served, s))
          × IsFound files path name use_zipped served
    unfolding stop_if
    base_name name stats (none, b) fine (p, found, how) s = absurd cc
    base_name name stats (some q, true) fine (p, found, inl (plain, how)) s = absurd cc
    base_name name stats (some q, false) fine (p, found, inr (default, how, _, _)) s = absurd cc
    base_name name stats (some q, false) fine (p, found, inl (plain, how)) s =
        let same : p ≡ q = cc in
        (
          record { file = q.0; zipped = q.1; name = name; etag = [] },
          rw (fine q.0) refl,
          inl (subst (λ x. IsOpened files path use_zipped x.0 x.1) same how, refl),
        )
    base_name name stats (some q, true) fine (p, found, inr (default, how, no_zip, absent)) s =
        let same : p ≡ q = cc in
        (
          record { file = q.0; zipped = q.1; name = codes "index.html"; etag = [] },
          rw (fine q.0) refl,
          inr (
            subst (λ x. IsOpened files (codes "index.html") use_zipped x.0 x.1) same how,
            refl,
            no_zip,
            absent,
          ),
        )

module _ {File S : Type 0} (files : Text → Option File) (stats : File → Bool) (gzipped : Bool)
    (q : FileRequest) (index : File) (s : S) where
  -- Where index.html can be opened and Stat succeeds, handleFrontendBase serves every request: the
  -- file that the path asks for, compressed or not, where it can be opened, and else index.html.
  pub handle_frontend_base-serves :
      files (codes "index.html") ≡ some index
      → ((f : File) → stats f ≡ true)
      → (served : Served File) × (handle_frontend_base files stats gzipped q s ≡ (ok served, s))
        × IsFound files
            (base_path files stats gzipped q).0
            (base_path files stats gzipped q).1
            (gzipped && q.accepts_gzip)
            served
  unfolding handle_frontend_base
  handle_frontend_base-serves h fine =
      let asked = base_path files stats gzipped q in
      let zip = gzipped && q.accepts_gzip in
      base_name files asked.0 zip index asked.1 stats (open_frontend_file files asked.0 zip true)
        fine (opened_default files asked.0 zip index h) s
