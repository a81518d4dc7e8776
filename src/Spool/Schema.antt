-- ===== src/Spool/Schema.antt =====
-- The schema and the points of a tile spool (Spool.h), and the attribute values in the file
-- (Spool.cpp). Floating-point values are their bit patterns.
use usd_pointcloud_plugins.Prelude.{
  ℕ, ◌+◌, Bool, ◌&&◌, leb, ◌==◌, List, length, Option, none, some, all_of, sum, map,
}
use usd_pointcloud_plugins.Prelude.Int.{ℤ, signed, unsigned}
use usd_pointcloud_plugins.Core.Bounds.{Vec3d}
use usd_pointcloud_plugins.Cloud.Attribute.{
  PointAttributeType, PointAttribute, attribute_is_valid, int32, int16, uint8, uint16, uint32,
  uint64, float32, float64, float64_vec2, float64_vec3,
}
use usd_pointcloud_plugins.Spool.Stream.{OutStream, Parse, ◌>>=◌, pure, write_number, read_number}

abbrev pub point_spool_schema_version : ℕ
point_spool_schema_version = 2

-- The one value of `SpoolCoordinateSpace`.
abbrev pub source_and_stage : ℕ
source_and_stage = 1

pub record SpoolSchema : Type 0 where
  pub version : ℕ
  pub coordinate_space : ℕ
  pub attributes : List PointAttribute

-- The alternatives of the variant, in its order.
pub data SpoolAttributeValue : Type 0 where
  int32_value : ℤ → SpoolAttributeValue
  int16_value : ℤ → SpoolAttributeValue
  uint8_value uint16_value uint32_value uint64_value : ℕ → SpoolAttributeValue
  float32_value float64_value : ℕ → SpoolAttributeValue
  vec2_value : ℕ → ℕ → SpoolAttributeValue
  vec3_value : ℕ → ℕ → ℕ → SpoolAttributeValue

-- `value.index()`
unfoldable pub value_index : SpoolAttributeValue → ℕ
value_index (int32_value v) = 0
value_index (int16_value v) = 1
value_index (uint8_value v) = 2
value_index (uint16_value v) = 3
value_index (uint32_value v) = 4
value_index (uint64_value v) = 5
value_index (float32_value v) = 6
value_index (float64_value v) = 7
value_index (vec2_value x y) = 8
value_index (vec3_value x y z) = 9

-- The enumerator's number, and the enumerator that a byte of the file stands for.
unfoldable pub type_code : PointAttributeType → ℕ
type_code int32 = 0
type_code int16 = 1
type_code uint8 = 2
type_code uint16 = 3
type_code uint32 = 4
type_code uint64 = 5
type_code float32 = 6
type_code float64 = 7
type_code float64_vec2 = 8
type_code float64_vec3 = 9

unfoldable pub attribute_size : PointAttributeType → ℕ
attribute_size int32 = 4
attribute_size int16 = 2
attribute_size uint8 = 1
attribute_size uint16 = 2
attribute_size uint32 = 4
attribute_size uint64 = 8
attribute_size float32 = 4
attribute_size float64 = 8
attribute_size float64_vec2 = 16
attribute_size float64_vec3 = 24

pub record SpoolPoint : Type 0 where
  pub source_position : Vec3d
  pub stage_position : Vec3d
  pub attributes : List SpoolAttributeValue

unfoldable pub schema_is_valid : SpoolSchema → Bool
schema_is_valid s =
    s.version == point_spool_schema_version
    && s.coordinate_space == source_and_stage
    && leb (length s.attributes) 0xffff_ffff
    && all_of (λ a. attribute_is_valid a) s.attributes

-- The bytes of a point in the file.
unfoldable pub record_size : List PointAttribute → ℕ
record_size attributes = 48 + sum (map (λ a. attribute_size a.type) attributes)

-- `WriteAttribute`: nothing is written where the value is of another type.
unfoldable pub write_attribute :
    PointAttributeType → SpoolAttributeValue → OutStream → Option OutStream
write_attribute int32 (int32_value v) s = some (write_number 4 (unsigned 32 v) s)
write_attribute int16 (int16_value v) s = some (write_number 2 (unsigned 16 v) s)
write_attribute uint8 (uint8_value v) s = some (write_number 1 v s)
write_attribute uint16 (uint16_value v) s = some (write_number 2 v s)
write_attribute uint32 (uint32_value v) s = some (write_number 4 v s)
write_attribute uint64 (uint64_value v) s = some (write_number 8 v s)
write_attribute float32 (float32_value v) s = some (write_number 4 v s)
write_attribute float64 (float64_value v) s = some (write_number 8 v s)
write_attribute float64_vec2 (vec2_value x y) s = some (write_number 8 y (write_number 8 x s))
write_attribute float64_vec3 (vec3_value x y z) s =
    some (write_number 8 z (write_number 8 y (write_number 8 x s)))
write_attribute _ _ s = none

-- `ReadAttribute`
unfoldable pub read_attribute : PointAttributeType → Parse SpoolAttributeValue
read_attribute int32 = do n ← read_number 4; pure (int32_value (signed 32 n))
read_attribute int16 = do n ← read_number 2; pure (int16_value (signed 16 n))
read_attribute uint8 = do n ← read_number 1; pure (uint8_value n)
read_attribute uint16 = do n ← read_number 2; pure (uint16_value n)
read_attribute uint32 = do n ← read_number 4; pure (uint32_value n)
read_attribute uint64 = do n ← read_number 8; pure (uint64_value n)
read_attribute float32 = do n ← read_number 4; pure (float32_value n)
read_attribute float64 = do n ← read_number 8; pure (float64_value n)
read_attribute float64_vec2 = do x ← read_number 8; y ← read_number 8; pure (vec2_value x y)
read_attribute float64_vec3 = do
  x ← read_number 8
  y ← read_number 8
  z ← read_number 8
  pure (vec3_value x y z)
