-- ===== src/Tests.antt =====
-- Runs of the code at concrete inputs, and the theorems applied to them.
pub mod Blocks
pub mod Stripes
pub mod Objects
pub mod Strings
pub mod Codes
pub mod Buffers
pub mod Sectors
pub mod Requests
pub mod Records
