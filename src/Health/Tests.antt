-- ===== src/Health/Tests.antt =====
-- The sample state without its Primary.
