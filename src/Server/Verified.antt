-- ===== src/Server/Verified.antt =====
-- What VerifyConfig is for: the configurations that it lets pass can be served.
use sr_server.Config.{Config}
use sr_server.Server.{Server}
