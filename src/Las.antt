-- ===== src/Las.antt =====
-- libs/usd-las/src/LasFormat.cpp: the public header of a LAS file, its variable-length records, and
-- the layout of the extra bytes of a point record.
pub mod Bytes
pub mod Format
pub mod Header
pub mod Records
pub mod Point
pub mod Report
mod Runs
