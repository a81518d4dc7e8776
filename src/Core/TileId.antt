-- ===== src/Core/TileId.antt =====
-- libs/usd-geo-core/src/TileId.cpp: the identity of a tile, and the text that serves as a map key.
pub mod Key
use usd_pointcloud_plugins.Prelude.{ℕ, Bool, ◌&&◌, if◌then◌else◌, Bytes, List, [], ◌∷◌, ◌++◌}
use usd_pointcloud_plugins.Prelude.Int.{ℤ, pos, eqb_ℤ, is_nonneg, IsI32, IsI64}
use usd_pointcloud_plugins.Prelude.Decimal.{decimal_ℤ}

pub record TileId : Type 0 where
  pub level : ℤ
  pub x : ℤ
  pub y : ℤ
  pub z : ℤ

unfoldable pub tile_is_valid : TileId → Bool
tile_is_valid t = is_nonneg t.level

abbrev pub slash : Bytes → Bytes
slash rest = b'/' ∷ rest

unfoldable pub tile_to_string : TileId → Bytes
tile_to_string t =
    if tile_is_valid t
    then b'L'
      ∷ (decimal_ℤ t.level
          ++ slash (decimal_ℤ t.x ++ slash (decimal_ℤ t.y ++ slash (decimal_ℤ t.z))))
    else []

-- The values that the fields of the struct can take.
pub record FitsTileId (t : TileId) : Type 0 where
  pub level : IsI32 t.level
  pub x : IsI64 t.x
  pub y : IsI64 t.y
  pub z : IsI64 t.z
