-- ===== src/Session/Tests.antt =====
-- A session made in memory.
use sr_server.Prelude.{true, codes}
use sr_server.Redis.Memory.{Store, memory}
use sr_server.Samples.{player, store}
use sr_server.Session.{Session, Ttls, new}
use sr_server.Session.Laws.{made}

abbrev ttls : Ttls
ttls = record { temp_secs = 900; persist_days = 30 }

abbrev session : Session
session = made (codes "s2") (codes "g") player true

abbrev after : Store
after = (new memory ttls (codes "s2") (codes "g") player true store).1
