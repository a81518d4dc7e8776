-- ===== src/Cloud.antt =====
-- libs/usd-pointcloud-core.
pub mod Attribute
pub mod PointData
pub mod Sampling
pub mod Names
pub mod Chunk
pub mod Lod
mod Runs
