-- ===== src/Spool/Runs.antt =====
-- Runs of the spool on a small tile.
use usd_pointcloud_plugins.Prelude.{
  ℕ, ◌≡◌, refl, true, leb, List, [], ◌∷◌, ◌++◌, length, All, none, some, arith,
}
use usd_pointcloud_plugins.Prelude.Int.{pos, negsuc}
use usd_pointcloud_plugins.Core.TileId.{TileId, FitsTileId, tile_is_valid}
use usd_pointcloud_plugins.Core.Bounds.{Vec3d}
use usd_pointcloud_plugins.Cloud.Attribute.{uint16, attribute_is_valid}
use usd_pointcloud_plugins.Spool.Stream.{Device}
use usd_pointcloud_plugins.Spool.Schema.{
  SpoolSchema, SpoolPoint, uint16_value, schema_is_valid, value_index, type_code,
}
use usd_pointcloud_plugins.Spool.Layout.{
  FitsPoint, FitsVec, spool_bytes, start_bytes, preamble_bytes, attributes_bytes, attribute_bytes,
  points_bytes, point_bytes, vec_bytes, values_bytes, value_bytes, footer_bytes,
}
use usd_pointcloud_plugins.Prelude.Decimal.{IsU64}
use usd_pointcloud_plugins.Prelude.Words.{to_bytes}
use usd_pointcloud_plugins.Spool.Writer.Run.{
  write_spool, write_spool-spool_bytes, write_spool-reports, flush_spool, closed,
}
use usd_pointcloud_plugins.Spool.RoundTrip.{read_spool, file_of, read_spool-write_spool}

abbrev tile : TileId
tile = record { level = pos 1; x = pos 2; y = negsuc 0; z = pos 0 }

abbrev schema : SpoolSchema
schema = record {
  version = 2;
  coordinate_space = 1;
  attributes = record { name = b'i' ∷ []; type = uint16 } ∷ [];
}

abbrev somewhere : ℕ → Vec3d
somewhere n = record { x = n; y = n; z = n }

abbrev two_points : List SpoolPoint
two_points =
    record {
      source_position = somewhere 1;
      stage_position = somewhere 2;
      attributes = uint16_value 7 ∷ [];
    }
    ∷ record {
      source_position = somewhere 3;
      stage_position = somewhere 4;
      attributes = uint16_value 9 ∷ [];
    }
    ∷ []

tile-FitsTileId : FitsTileId tile
tile-FitsTileId = record { level = omega arith; x = omega arith; y = omega arith; z = omega arith }

tile_valid : tile_is_valid tile ≡ true
unfolding tile_is_valid
tile_valid = refl

schema_valid : schema_is_valid schema ≡ true
unfolding schema_is_valid attribute_is_valid
schema_valid = refl

vec_fits : (n : ℕ) → IsU64 n → FitsVec (somewhere n)
vec_fits n h = (h, h, h)

two_points-FitsPoint : All (FitsPoint schema.attributes) two_points
unfolding value_index type_code
two_points-FitsPoint = (
  (vec_fits 1 (omega arith), vec_fits 2 (omega arith), (refl, omega arith, tt)),
  ((vec_fits 3 (omega arith), vec_fits 4 (omega arith), (refl, omega arith, tt)), tt),
)

size : length (spool_bytes tile schema two_points) ≡ 159
unfolding spool_bytes start_bytes preamble_bytes attributes_bytes attribute_bytes points_bytes
    point_bytes vec_bytes values_bytes value_bytes footer_bytes to_bytes
size = refl

abbrev disk : Device
disk = record { capacity = 1000; buffer = 512 }

abbrev small_disk : Device
small_disk = record { capacity = 150; buffer = 512 }

read_spool-write_spool_example :
    read_spool 3 "spool.bin" tile
      (file_of (write_spool "spool.bin" tile schema 64 disk (some 0) two_points))
      none
    ≡ record {
      opened_as = some (tile, schema);
      points = two_points;
      complete = true;
      diagnostics = [];
    }
read_spool-write_spool_example =
    read_spool-write_spool "spool.bin" tile tile schema 64 disk two_points (some 0) none
      tile-FitsTileId tile_valid schema_valid ((omega arith, tt), omega arith) (omega arith)
      two_points-FitsPoint (omega arith) (omega (arith, size))

write_spool-spool_bytes_example :
    write_spool "spool.bin" tile schema 64 disk (some 0) two_points ≡ record {
      writer = some (closed tile schema 64 disk (some 0) two_points);
      result = true;
      diagnostics = [];
    }
write_spool-spool_bytes_example =
    write_spool-spool_bytes "spool.bin" tile schema 64 disk (some 0) two_points tile_valid
      schema_valid (omega arith, tt) (omega arith) two_points-FitsPoint (omega (arith, size))

-- The points fit this disk, the footer only the buffer in front of it.
write_spool-reports_example :
    ((flush_spool "spool.bin" tile schema 64 small_disk (some 0) two_points).result
      ≡ leb (length (start_bytes tile schema ++ points_bytes two_points)) 150)
    × ((write_spool "spool.bin" tile schema 64 small_disk (some 0) two_points).result
        ≡ leb (length (spool_bytes tile schema two_points)) 150)
write_spool-reports_example =
    write_spool-reports "spool.bin" tile schema 64 small_disk (some 0) two_points tile_valid
      schema_valid (omega arith, tt) (omega arith) two_points-FitsPoint
