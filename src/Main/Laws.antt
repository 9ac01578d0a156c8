-- ===== src/Main/Laws.antt =====
-- The server as `main` starts it.
