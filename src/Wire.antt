-- ===== src/Wire.antt =====
-- lltdResponder/lltdWire.c and lltdEndian.h: byte order, addresses, frame headers.
pub mod Endian
pub mod Address
pub mod Header
