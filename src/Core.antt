-- ===== src/Core.antt =====
-- libs/usd-geo-core: bounds, tile identities, diagnostics, cache keys.
pub mod Float32
pub mod Float64
pub mod Diagnostic
pub mod Bounds
pub mod TileId
pub mod CacheKey
mod Runs
