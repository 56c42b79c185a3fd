-- ===== src/Open.antt =====
-- src/open.rs: the byte meters and bounds that stand between the source and the parser, and the
-- validation of one entry.
pub mod Meter
pub mod Bounded
pub mod Cap
pub mod OpenEntry
