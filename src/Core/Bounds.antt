-- ===== src/Core/Bounds.antt =====
-- libs/usd-geo-core/src/SpatialBounds.cpp and its header: axis-aligned bounds of finite points.
pub mod Expand
pub mod Contain
use usd_pointcloud_plugins.Prelude.{ℕ, Bool, ◌&&◌, if◌then◌else◌, List, [], ◌∷◌}
use usd_pointcloud_plugins.Core.Float64.{
  is_finite, le_f64, min_f64, max_f64, infinity_bits, negative_infinity,
}

pub record Vec3d : Type 0 where
  pub x : ℕ
  pub y : ℕ
  pub z : ℕ

unfoldable pub vec_is_finite : Vec3d → Bool
vec_is_finite v = is_finite v.x && is_finite v.y && is_finite v.z

pub record SpatialBounds : Type 0 where
  pub minimum : Vec3d
  pub maximum : Vec3d

unfoldable pub empty_bounds : SpatialBounds
empty_bounds = record {
  minimum = record { x = infinity_bits; y = infinity_bits; z = infinity_bits };
  maximum = record { x = negative_infinity; y = negative_infinity; z = negative_infinity };
}

unfoldable pub bounds_is_valid : SpatialBounds → Bool
bounds_is_valid b =
    is_finite b.minimum.x
    && is_finite b.minimum.y
    && is_finite b.minimum.z
    && is_finite b.maximum.x
    && is_finite b.maximum.y
    && is_finite b.maximum.z
    && le_f64 b.minimum.x b.maximum.x
    && le_f64 b.minimum.y b.maximum.y
    && le_f64 b.minimum.z b.maximum.z

unfoldable pub expand : SpatialBounds → Vec3d → SpatialBounds
expand b p =
    if vec_is_finite p
    then record {
      minimum = record {
        x = min_f64 b.minimum.x p.x;
        y = min_f64 b.minimum.y p.y;
        z = min_f64 b.minimum.z p.z;
      };
      maximum = record {
        x = max_f64 b.maximum.x p.x;
        y = max_f64 b.maximum.y p.y;
        z = max_f64 b.maximum.z p.z;
      };
    }
    else b

-- `for (const auto& position : positions) bounds.Expand(position);`
unfoldable pub expand_all : SpatialBounds → List Vec3d → SpatialBounds
expand_all b [] = b
expand_all b (p ∷ ps) = expand_all (expand b p) ps
