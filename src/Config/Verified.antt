-- ===== src/Config/Verified.antt =====
-- The configurations that VerifyConfig lets pass.
use sr_server.Prelude.{
  ◌≤◌, ◌≡◌, ◌≢◌, ◌↔◌, ◌⊎◌, Bool, true, not, ◌&&◌, ◌||◌, [], ◌∷◌, Text, codes, text_eq, arith,
}
use sr_server.Config.{Config, is_unset, has_none, same}

-- Exactly one of two.
abbrev pub OneOf : Type 0 → Type 0 → Type 0
OneOf A B = (A × ¬ B) ⊎ (¬ A × B)

-- In production, plain HTTP only behind a proxy, and a health check key of 256 bytes or none.
abbrev pub Production : Config → Type 0
Production c =
    ((c.main_listen_http ≡ []) ⊎ (c.reverse_proxied ≡ true))
    × ((c.health_check_key_length ≡ 0) ⊎ (256 ≤ c.health_check_key_length))

-- One main server, not on the port of the redirects, and with TLS one source of certificates.
abbrev pub Servers : Config → Type 0
Servers c =
    OneOf (c.main_listen_http ≡ []) (c.main_listen_https ≡ [])
    × ((c.redirect_listen_http ≡ [])
        ⊎ ((c.redirect_listen_http ≢ c.main_listen_http)
            × (c.redirect_listen_http ≢ c.main_listen_https)))
    × ((c.main_listen_https ≡ []) ⊎ OneOf (c.tls_autocert_dir ≡ []) (c.tls_cert_files ≡ []))

-- The frontend is hosted in one of three ways or not at all.
abbrev pub Frontend : Config → Type 0
Frontend c =
    (c.host_frontend ≡ [])
    ⊎ (c.host_frontend ≡ codes "redirect")
    ⊎ ((c.frontend_base_path ≢ [])
        × ((c.host_frontend ≡ codes "subroute")
            ⊎ ((c.host_frontend ≡ codes "by-domain") × (c.frontend_host ≢ c.backend_host))))

pub unset_iff : (t : Text) → (is_unset t ≡ true) ↔ (t ≡ [])
unset_iff [] = ground arith
unset_iff (c ∷ t) = ground arith

abbrev servers_fail : Config → Bool
servers_fail c =
    (text_eq c.redirect_listen_http c.main_listen_https && not (is_unset c.main_listen_https))
    || same (is_unset c.main_listen_http) (is_unset c.main_listen_https)
    || (not (is_unset c.redirect_listen_http) && text_eq c.main_listen_http c.redirect_listen_http)
    || (not (is_unset c.main_listen_https)
        && same (is_unset c.tls_autocert_dir) (has_none c.tls_cert_files))

abbrev frontend_fails : Config → Bool
frontend_fails c =
    (not (is_unset c.host_frontend)
      && not (text_eq c.host_frontend (codes "by-domain"))
      && not (text_eq c.host_frontend (codes "redirect"))
      && not (text_eq c.host_frontend (codes "subroute")))
    || (text_eq c.host_frontend (codes "by-domain") && text_eq c.frontend_host c.backend_host)
    || (not (is_unset c.host_frontend)
        && not (text_eq c.host_frontend (codes "redirect"))
        && is_unset c.frontend_base_path)
