-- ===== src/Gc.antt =====
-- cds/gc: memory reclamation.
pub mod Hazard
