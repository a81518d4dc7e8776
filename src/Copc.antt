-- ===== src/Copc.antt =====
-- libs/usd-copc/src/Copc.cpp: the validity of what a COPC file says of itself, and its hierarchy of
-- pages.
pub mod Entry
pub mod Hierarchy
mod Runs
