-- ===== src/Spool/Reader/Sizes.antt =====
-- The sizes of the parts of the layout.
use usd_pointcloud_plugins.Prelude.{
  ℕ, ◌*◌, ◌≤◌, ◌≡◌, refl, List, [], ◌∷◌, ◌++◌, length, length-append, All, arith, sum, map,
}
use usd_pointcloud_plugins.Prelude.Words.{to_bytes, length-to_bytes}
use usd_pointcloud_plugins.Core.Bounds.{Vec3d}
use usd_pointcloud_plugins.Cloud.Attribute.{
  PointAttributeType, PointAttribute, int32, int16, uint8, uint16, uint32, uint64, float32, float64,
  float64_vec2, float64_vec3,
}
use usd_pointcloud_plugins.Spool.Schema.{
  SpoolAttributeValue, SpoolPoint, int32_value, int16_value, uint8_value, uint16_value,
  uint32_value, uint64_value, float32_value, float64_value, vec2_value, vec3_value, value_index,
  type_code, attribute_size, record_size,
}
use usd_pointcloud_plugins.Spool.Layout.{
  value_bytes, vec_bytes, values_bytes, FitsValues, point_bytes, FitsPoint, points_bytes,
  footer_bytes,
}

length-value_bytes :
    (t : PointAttributeType) (v : SpoolAttributeValue)
    → value_index v ≡ type_code t
    → length (value_bytes v) ≡ attribute_size t
unfolding value_index type_code attribute_size value_bytes
length-value_bytes int32 (int32_value v) e = length-to_bytes 4 _
length-value_bytes int16 (int16_value v) e = length-to_bytes 2 _
length-value_bytes uint8 (uint8_value v) e = length-to_bytes 1 v
length-value_bytes uint16 (uint16_value v) e = length-to_bytes 2 v
length-value_bytes uint32 (uint32_value v) e = length-to_bytes 4 v
length-value_bytes uint64 (uint64_value v) e = length-to_bytes 8 v
length-value_bytes float32 (float32_value v) e = length-to_bytes 4 v
length-value_bytes float64 (float64_value v) e = length-to_bytes 8 v
length-value_bytes float64_vec2 (vec2_value x y) e =
    omega
      (arith, length-append (to_bytes 8 x) (to_bytes 8 y), length-to_bytes 8 x, length-to_bytes 8 y)
length-value_bytes float64_vec3 (vec3_value x y z) e = omega (
  arith,
  length-append (to_bytes 8 x) (to_bytes 8 y ++ to_bytes 8 z),
  length-append (to_bytes 8 y) (to_bytes 8 z),
  length-to_bytes 8 x,
  length-to_bytes 8 y,
  length-to_bytes 8 z,
)
length-value_bytes _ _ e = absurd (omega arith)

length-vec_bytes : (v : Vec3d) → length (vec_bytes v) ≡ 24
unfolding vec_bytes
length-vec_bytes v = omega (
  arith,
  length-append (to_bytes 8 v.x) (to_bytes 8 v.y ++ to_bytes 8 v.z),
  length-append (to_bytes 8 v.y) (to_bytes 8 v.z),
  length-to_bytes 8 v.x,
  length-to_bytes 8 v.y,
  length-to_bytes 8 v.z,
)

length-values_bytes :
    (types : List PointAttribute) (values : List SpoolAttributeValue)
    → FitsValues types values
    → length (values_bytes values) ≡ sum (map (λ a. attribute_size a.type) types)
unfolding values_bytes
length-values_bytes [] [] h = refl
length-values_bytes [] (v ∷ values) h = elim h [ ]
length-values_bytes (a ∷ types) [] h = elim h [ ]
length-values_bytes (a ∷ types) (v ∷ values) (e, h, hs) = omega (
  arith,
  length-append (value_bytes v) (values_bytes values),
  length-value_bytes a.type v e,
  length-values_bytes types values hs,
)

pub length-point_bytes :
    (types : List PointAttribute) (p : SpoolPoint)
    → FitsPoint types p
    → length (point_bytes p) ≡ record_size types
unfolding point_bytes record_size
length-point_bytes types p (h1, h2, h3) = omega (
  arith,
  length-append (vec_bytes p.source_position)
      (vec_bytes p.stage_position ++ values_bytes p.attributes),
  length-append (vec_bytes p.stage_position) (values_bytes p.attributes),
  length-vec_bytes p.source_position,
  length-vec_bytes p.stage_position,
  length-values_bytes types p.attributes h3,
)

pub length-points_bytes :
    (types : List PointAttribute) (points : List SpoolPoint)
    → All (FitsPoint types) points
    → length (points_bytes points) ≡ length points * record_size types
unfolding points_bytes
length-points_bytes types [] h = omega arith
length-points_bytes types (p ∷ points) (h, hs) = omega (
  arith,
  length-append (point_bytes p) (points_bytes points),
  length-point_bytes types p h,
  length-points_bytes types points hs,
)

pub length-footer_bytes : (n : ℕ) → length (footer_bytes n) ≡ 16
unfolding footer_bytes
length-footer_bytes n = omega (arith, length-to_bytes 8 n)

pub record_size-pos : (types : List PointAttribute) → 48 ≤ record_size types
unfolding record_size
record_size-pos types = omega arith
