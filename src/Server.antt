-- ===== src/Server.antt =====
-- main/main.go and routes/httpServer.go: which servers a configuration starts, with which
-- certificates, and which part of the program they pass a request to. gorilla/mux takes the first of
-- a router's routes that matches.
mod Tests
pub mod Verified
use sr_server.Prelude.{
  Bool, true, false, not, ◌&&◌, Option, none, some, List, [], ◌∷◌, ◌==◌, length, Text, codes,
  text_eq, has_prefix, if◌then◌else◌,
}
use sr_server.Config.{Config, is_unset}

-- Where a server has its certificates from: Let's Encrypt, two files, or nowhere.
pub data Certificates : Type 0 where
  autocert : Certificates
  cert_files : Text → Text → Certificates
  no_certificate : Certificates

pub data Server : Type 0 where
  http : Text → Server
  https : Text → Certificates → Server

-- the names of the files that runServer gives ListenAndServeTLS, empty but for exactly two
unfoldable pub pem_and_key : List Text → Text × Text
pem_and_key (pem ∷ key ∷ []) = (pem, key)
pem_and_key _ = ([], [])

-- MakeHTTPSSiteServer with runServer: http.Server reads the files where they are named, or where it
-- has no GetCertificate
unfoldable pub certificates : Config → Certificates
unfolding pem_and_key
certificates c =
    let (pem, key) = pem_and_key c.tls_cert_files in
    if not (is_unset pem && is_unset key)
    then cert_files pem key
    else if not (is_unset c.tls_autocert_dir)
    then autocert
    else no_certificate

abbrev pub address : Server → Text
address (http addr) = addr
address (https addr certs) = addr

-- the main server of main
unfoldable pub main_server : Config → Server
unfolding certificates
main_server c =
    if not (is_unset c.main_listen_http)
    then http c.main_listen_http
    else https c.main_listen_https (certificates c)

-- the server of redirects of main
unfoldable pub redirect_server : Config → Option Server
redirect_server c =
    if not (is_unset c.redirect_listen_http) then some (http c.redirect_listen_http) else none

-- The parts that makeMainRouter passes requests to: restRouter, frontendRouter and
-- handleFrontendRedirect.
pub data Part : Type 0 where
  rest frontend frontend_redirect : Part

-- What handles "/" of restRouter: handleRoot or handleFrontendRedirect.
pub data RootPage : Type 0 where
  root redirects : RootPage

-- makeMainRouter for a request to a host and a path, with the page at "/"; `none` is its panic
unfoldable pub main_router : Config → Text → Text → Option (Part × RootPage)
main_router c host path =
    if is_unset c.host_frontend
    then some (rest, root)
    else if text_eq c.host_frontend (codes "redirect")
    then some (rest, redirects)
    else if text_eq c.host_frontend (codes "by-domain")
    then some (
      if text_eq host c.backend_host
          then rest
          else if text_eq host c.frontend_host
          then frontend
          else frontend_redirect,
      root,
    )
    else if text_eq c.host_frontend (codes "subroute")
    then some (if has_prefix path (codes "/api") then rest else frontend, root)
    else none
