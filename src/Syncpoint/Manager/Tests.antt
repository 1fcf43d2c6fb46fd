-- ===== src/Syncpoint/Manager/Tests.antt =====
-- Runs of the manager; the world is a number that nothing touches.
