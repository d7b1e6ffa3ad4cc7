-- ===== src/Hash/Tests.antt =====
-- Runs of hash.h.
