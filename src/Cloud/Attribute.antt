-- ===== src/Cloud/Attribute.antt =====
-- libs/usd-pointcloud-core/include/usdpointcloud/PointCloud.h: named point attributes.
use usd_pointcloud_plugins.Prelude.{Bool, not, Bytes, is_empty}

pub data PointAttributeType : Type 0 where
  int32 int16 uint8 uint16 uint32 uint64 float32 float64 : PointAttributeType
  float64_vec2 float64_vec3 : PointAttributeType

pub record PointAttribute : Type 0 where
  pub name : Bytes
  pub type : PointAttributeType

unfoldable pub attribute_is_valid : PointAttribute → Bool
attribute_is_valid a = not (is_empty a.name)
