-- ===== src/Event/Tests.antt =====
-- Events, their JSON and their histories at concrete inputs.
