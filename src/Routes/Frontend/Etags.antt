-- ===== src/Routes/Frontend/Etags.antt =====
-- Where etagForFile panics.
use sr_server.Prelude.{
  ℕ, ◌+◌, ◌≡◌, ◌≢◌, ◌<◌, refl, ◌⊎◌, ◌↔◌, inl, inr, Bool-cases, true, false, Option, none, some,
  length, Text, codes, text_eq, text_eq_iff, arith,
}
use sr_server.Routes.Frontend.{
  css_etag, media_etag, js_etag, has_suffix, with_ext, hash_before, last_dot, etag_for_file,
}

-- The names for which the index of the hash falls below 0.
abbrev pub IsShort : Text → Text → Type 0
IsShort sub name =
    ((sub ≡ codes "css") × (has_suffix name (codes ".map") ≡ true) × (length name < 22))
    ⊎ ((sub ≡ codes "css")
        × (has_suffix name (codes ".map") ≡ false)
        × (has_suffix name (codes ".css") ≡ true)
        × (length name < 18))
    ⊎ ((sub ≡ codes "media") × (dot : ℕ) × (last_dot name ≡ some dot) × (dot < 8))

cut-none :
    (e name : Text) (end back : ℕ)
    → (with_ext e (hash_before name end back) ≡ none) ↔ (end < back + 8)
cut-none e name end back = ground arith

hash-none : (name : Text) (end : ℕ) → (hash_before name end 0 ≡ none) ↔ (end < 8)
hash-none name end = ground arith

css_etag-none :
    (name : Text)
    → (css_etag name ≡ none) ↔ (
        ((has_suffix name (codes ".map") ≡ true) × (length name < 22))
        ⊎ ((has_suffix name (codes ".map") ≡ false)
            × (has_suffix name (codes ".css") ≡ true)
            × (length name < 18)))
unfolding css_etag
css_etag-none name = ground arith

media_etag-none :
    (name : Text) (o : Option ℕ)
    → (media_etag name o ≡ none) ↔ ((dot : ℕ) × (o ≡ some dot) × (dot < 8))
unfolding media_etag
media_etag-none name none = ((λ h. cc), (λ h. cc))
media_etag-none name (some dot) =
    ((λ h. (dot, refl, ground arith)), (λ (x, e, small). let same : dot ≡ x = cc in ground arith))

js_etag_some : (name : Text) → js_etag name ≢ none
unfolding js_etag
js_etag_some name h = ground arith

-- etagForFile panics exactly on a short name: one of css shorter than the hash and what it takes to
-- come after it, or one of media with fewer than 8 bytes before its last dot.
pub etag_for_file-panics : (sub name : Text) → (etag_for_file sub name ≡ none) ↔ IsShort sub name
unfolding etag_for_file
etag_for_file-panics sub name =
    let css = text_eq_iff sub (codes "css") in
    let media = text_eq_iff sub (codes "media") in
    elim (Bool-cases (text_eq sub (codes "css"))) [
      | inl is_css ↦ rw (is_css) (ground (arith, css_etag-none name, css))
      | inr not_css ↦ rw (not_css) (elim (Bool-cases (text_eq sub (codes "media"))) [
        | inl is_media ↦
            rw (is_media) (ground (arith, media_etag-none name (last_dot name), media, css))
        | inr not_media ↦ rw (not_media) (ground (arith, js_etag_some name, media, css))
      ])
    ]
