-- ===== src/Peering.antt =====
-- src/osd/osd_peering_pg.cpp with src/osd/osd_peering_pg.h: what a placement group learns from the
-- object lists of its peers. `Types` has the data, `Check` the walk over the merged lists, and the
-- other children prove what the walk decides.
pub mod Types
pub mod Check
pub mod Walk
pub mod Flags
pub mod Activation
pub mod Counts
