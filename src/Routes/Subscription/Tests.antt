-- ===== src/Routes/Subscription/Tests.antt =====
-- A subscription to the sample game that ends at once.
use sr_server.Prelude.{true, none, [], codes, pure}
use sr_server.Redis.Memory.{Store, memory}
use sr_server.Samples.{store}
use sr_server.Session.{Ttls}
use sr_server.Session
use sr_server.Routes.{Request, empty}
use sr_server.Routes.Subscription.{handle_subscription}

abbrev ttls : Ttls
ttls = record { temp_secs = 900; persist_days = 30 }

abbrev request : Request
request = record { authentication = []; session_param = codes "s1"; body = none }

abbrev after : Store
after = (handle_subscription memory ttls true true request (pure empty) store).1
