-- ===== src/Id/Tests.antt =====
-- The IDs at concrete times.
use sr_server.Prelude.{◌<◌, ◌≡◌, arith}
use sr_server.Id.{build_tuid, timestamp}
use sr_server.Id.Laws.{build_tuid-timestamp}

build_tuid-timestamp_example :
    (timestamp (build_tuid 1_700_000_000 9) ≡ (1, 700_000_000))
    × (build_tuid 1_700_000_000 9 < build_tuid 1_800_000_000 2)
build_tuid-timestamp_example =
    build_tuid-timestamp 1_700_000_000 9 1_800_000_000 2 (omega arith) (omega arith) (omega arith)
      (omega arith) (omega arith)
