-- ===== src/RequestManager/Tests.antt =====
-- x
