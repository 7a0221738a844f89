-- ===== src/Pm.antt =====
-- The processes of a Process Manager, pm/.
pub mod Process
