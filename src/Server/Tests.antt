-- ===== src/Server/Tests.antt =====
-- The servers of a configuration for production.
use sr_server.Prelude.{true, false, [], ◌∷◌, codes}
use sr_server.Config.{Config}

abbrev config : Config
config = record {
  is_production = true;
  main_listen_http = [];
  main_listen_https = codes ":443";
  redirect_listen_http = codes ":80";
  reverse_proxied = false;
  health_check_key_length = 0;
  tls_autocert_dir = [];
  tls_cert_files = codes "c" ∷ codes "k" ∷ [];
  host_frontend = codes "redirect";
  frontend_host = codes "s";
  backend_host = codes "a";
  frontend_base_path = [];
}
