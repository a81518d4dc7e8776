-- ===== src/Spool.antt =====
-- libs/usd-pointcloud-tiling/src/Spool.cpp: the temporary file of one tile, written point by point
-- and read back.
pub mod Stream
pub mod Schema
pub mod Writer
pub mod Reader
pub mod Layout
pub mod RoundTrip
mod Runs
