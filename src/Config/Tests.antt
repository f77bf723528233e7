-- ===== src/Config/Tests.antt =====
-- A list of the environment and a configuration.
use sr_server.Prelude.{true, false, [], codes}
use sr_server.Config.{Config}

abbrev config : Config
config = record {
  is_production = true;
  main_listen_http = [];
  main_listen_https = codes ":443";
  redirect_listen_http = codes ":80";
  reverse_proxied = false;
  health_check_key_length = 0;
  tls_autocert_dir = codes "certs";
  tls_cert_files = [];
  host_frontend = codes "redirect";
  frontend_host = codes "shadowroller.net";
  backend_host = codes "api.shadowroller.net";
  frontend_base_path = [];
}
