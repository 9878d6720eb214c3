-- ===== src/Rmw.antt =====
-- src/osd/osd_rmw.cpp with src/osd/osd_rmw.h: the read-modify-write of an erasure-coded object. A
-- pointer is an address, and a stripe array is a list with one stripe for each role.
pub mod Stripes
pub mod Plan
pub mod Ranges
pub mod Missing
pub mod Buffers
pub mod Parity
pub mod Pieces
pub mod Combinations
