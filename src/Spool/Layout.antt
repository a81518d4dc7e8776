-- ===== src/Spool/Layout.antt =====
-- The bytes of a spool file, as a plain description: what the writer means to write and the reader
-- expects. Nothing here is code of the repository.
use usd_pointcloud_plugins.Prelude.{ℕ, ◌≤◌, ◌<◌, ◌≡◌, List, [], ◌∷◌, ◌++◌, Bytes, length, All}
use usd_pointcloud_plugins.Prelude.Int.{ℤ, pos, negsuc, unsigned, IsI32}
use usd_pointcloud_plugins.Prelude.Words.{to_bytes}
use usd_pointcloud_plugins.Prelude.Decimal.{IsU64}
use usd_pointcloud_plugins.Core.Bounds.{Vec3d}
use usd_pointcloud_plugins.Core.TileId.{TileId}
use usd_pointcloud_plugins.Cloud.Attribute.{PointAttribute}
use usd_pointcloud_plugins.Spool.Schema.{
  SpoolSchema, SpoolAttributeValue, SpoolPoint, int32_value, int16_value, uint8_value, uint16_value,
  uint32_value, uint64_value, float32_value, float64_value, vec2_value, vec3_value, value_index,
  type_code,
}
use usd_pointcloud_plugins.Spool.Writer.{spool_header, spool_footer}

unfoldable pub value_bytes : SpoolAttributeValue → Bytes
value_bytes (int32_value v) = to_bytes 4 (unsigned 32 v)
value_bytes (int16_value v) = to_bytes 2 (unsigned 16 v)
value_bytes (uint8_value v) = to_bytes 1 v
value_bytes (uint16_value v) = to_bytes 2 v
value_bytes (uint32_value v) = to_bytes 4 v
value_bytes (uint64_value v) = to_bytes 8 v
value_bytes (float32_value v) = to_bytes 4 v
value_bytes (float64_value v) = to_bytes 8 v
value_bytes (vec2_value x y) = to_bytes 8 x ++ to_bytes 8 y
value_bytes (vec3_value x y z) = to_bytes 8 x ++ (to_bytes 8 y ++ to_bytes 8 z)

abbrev pub IsI16 : ℤ → Type 0
IsI16 (pos n) = n < 0x8000
IsI16 (negsuc n) = n < 0x8000

-- The values of each alternative.
abbrev pub FitsValue : SpoolAttributeValue → Type 0
FitsValue (int32_value v) = IsI32 v
FitsValue (int16_value v) = IsI16 v
FitsValue (uint8_value v) = v < 256
FitsValue (uint16_value v) = v < 0x1_0000
FitsValue (uint32_value v) = v < 0x1_0000_0000
FitsValue (uint64_value v) = IsU64 v
FitsValue (float32_value v) = v < 0x1_0000_0000
FitsValue (float64_value v) = IsU64 v
FitsValue (vec2_value x y) = IsU64 x × IsU64 y
FitsValue (vec3_value x y z) = IsU64 x × IsU64 y × IsU64 z

unfoldable pub vec_bytes : Vec3d → Bytes
vec_bytes v = to_bytes 8 v.x ++ (to_bytes 8 v.y ++ to_bytes 8 v.z)

abbrev pub FitsVec : Vec3d → Type 0
FitsVec v = IsU64 v.x × IsU64 v.y × IsU64 v.z

unfoldable pub values_bytes : List SpoolAttributeValue → Bytes
values_bytes [] = []
values_bytes (v ∷ values) = value_bytes v ++ values_bytes values

unfoldable pub point_bytes : SpoolPoint → Bytes
point_bytes p =
    vec_bytes p.source_position ++ (vec_bytes p.stage_position ++ values_bytes p.attributes)

-- The point fits the schema: as many values, each of its type and in its range.
abbrev pub FitsValues : List PointAttribute → List SpoolAttributeValue → Type 0
FitsValues [] [] = Unit {0}
FitsValues [] (v ∷ values) = ⊥
FitsValues (a ∷ types) [] = ⊥
FitsValues (a ∷ types) (v ∷ values) =
    (value_index v ≡ type_code a.type) × FitsValue v × FitsValues types values

abbrev pub FitsPoint : List PointAttribute → SpoolPoint → Type 0
FitsPoint types p =
    FitsVec p.source_position × FitsVec p.stage_position × FitsValues types p.attributes

unfoldable pub points_bytes : List SpoolPoint → Bytes
points_bytes [] = []
points_bytes (p ∷ points) = point_bytes p ++ points_bytes points

unfoldable pub attribute_bytes : PointAttribute → Bytes
attribute_bytes a = to_bytes 4 (length a.name) ++ (a.name ++ to_bytes 1 (type_code a.type))

unfoldable pub attributes_bytes : List PointAttribute → Bytes
attributes_bytes [] = []
attributes_bytes (a ∷ types) = attribute_bytes a ++ attributes_bytes types

unfoldable pub preamble_bytes : TileId → SpoolSchema → Bytes
preamble_bytes tile schema =
    spool_header
    ++ (to_bytes 4 schema.version
        ++ (to_bytes 1 schema.coordinate_space
            ++ (to_bytes 4 (unsigned 32 tile.level)
                ++ (to_bytes 8 (unsigned 64 tile.x)
                    ++ (to_bytes 8 (unsigned 64 tile.y)
                        ++ to_bytes 4 (length schema.attributes))))))

unfoldable pub start_bytes : TileId → SpoolSchema → Bytes
start_bytes tile schema = preamble_bytes tile schema ++ attributes_bytes schema.attributes

unfoldable pub footer_bytes : ℕ → Bytes
footer_bytes count = spool_footer ++ to_bytes 8 count

-- A finished spool.
unfoldable pub spool_bytes : TileId → SpoolSchema → List SpoolPoint → Bytes
spool_bytes tile schema points =
    start_bytes tile schema ++ (points_bytes points ++ footer_bytes (length points))

-- What the reader accepts of a schema: names of at most a mebibyte, at most 100000 attributes.
abbrev pub FitsReader : SpoolSchema → Type 0
FitsReader schema =
    All (λ a. length a.name ≤ 0x10_0000) schema.attributes × (length schema.attributes ≤ 100000)
