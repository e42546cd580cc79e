-- ===== src/Automata.antt =====
-- lltdResponder/lltdAutomata.c and lltdAutomata.h, a child module for each part.
pub mod Machine
pub mod Sessions
pub mod Band
pub mod Events
pub mod Tick
