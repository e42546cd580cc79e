-- ===== src/Daemon.antt =====
-- The loops of the daemons under os, a child module for each kind.
pub mod Darwin
pub mod Plain
