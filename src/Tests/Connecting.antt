-- ===== src/Tests/Connecting.antt =====
-- `connect` at concrete stores.
