-- ===== src/Tiling.antt =====
-- libs/usd-pointcloud-tiling/src/Tiling.cpp: plans of tiles, and the routers that send points to them.
pub mod Ids
pub mod Config
pub mod Budget
pub mod Router
pub mod Plan
pub mod Grid
pub mod Manifest
mod Runs
