-- ===== src/Responder.antt =====
-- lltdResponder/lltdBlock.c: what the responder does with a frame, a child for each handler.
pub mod State
pub mod Probes
pub mod Query
pub mod LargeTlv
pub mod Hello
pub mod Dispatch
pub mod Triple
pub mod Total
pub mod Isolated
pub mod Sound
pub mod Mapper
