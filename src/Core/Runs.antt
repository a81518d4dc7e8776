-- ===== src/Core/Runs.antt =====
-- Runs of the cache key, the tile identity and the bounds.
use mathlib.Core.List.Perm
use usd_pointcloud_plugins.Prelude.{◌≡◌, ◌↔◌, refl, true, [], ◌∷◌, Bytes, All, arith, any_of}
use usd_pointcloud_plugins.Prelude.Int.{pos, negsuc}
use usd_pointcloud_plugins.Core.CacheKey.{
  CacheArguments, normalized_arguments, normalize_name, trim, skip_blanks, is_blank, to_lower,
  normalize_cache_arguments, stable_cache_key,
}
use usd_pointcloud_plugins.Prelude.Sort.{sort_by, insert_by}
use usd_pointcloud_plugins.Core.CacheKey.Stable.{
  FitsArgument, stable_cache_key-Perm, normalize_cache_arguments_iff,
}
use usd_pointcloud_plugins.Core.TileId.{TileId, FitsTileId, tile_is_valid}
use usd_pointcloud_plugins.Core.TileId.Key.{tile_to_string-injective}
use usd_pointcloud_plugins.Core.Bounds.{
  Vec3d, empty_bounds, expand_all, bounds_is_valid, vec_is_finite,
}
use usd_pointcloud_plugins.Core.Bounds.Expand.{bounds_is_valid-expand_all}
use usd_pointcloud_plugins.Core.Bounds.Contain.{HoldsFinite, expand_all-empty_bounds}

abbrev mode : Bytes × Bytes
mode = (b'm' ∷ b'o' ∷ [], b'1' ∷ [])

abbrev level : Bytes × Bytes
level = (b'L' ∷ [], b'2' ∷ [])

stable_cache_key-Perm_example :
    (normalize_cache_arguments (mode ∷ level ∷ []) ≡ normalize_cache_arguments (level ∷ mode ∷ []))
    × (stable_cache_key (mode ∷ level ∷ []) ≡ stable_cache_key (level ∷ mode ∷ []))
stable_cache_key-Perm_example = stable_cache_key-Perm (Perm.swap level mode [])

abbrev untidy : CacheArguments
untidy = (b' ' ∷ b'l' ∷ [], b'2' ∷ b' ' ∷ []) ∷ []

fits :
    All FitsArgument (normalized_arguments untidy)
    × All FitsArgument (normalized_arguments (level ∷ []))
unfolding normalized_arguments normalize_name trim skip_blanks is_blank to_lower sort_by insert_by
fits = (((omega arith, omega arith), tt), ((omega arith, omega arith), tt))

normalize_cache_arguments_iff_example :
    (normalize_cache_arguments untidy ≡ normalize_cache_arguments (level ∷ []))
    ↔ (normalized_arguments untidy ≡ normalized_arguments (level ∷ []))
normalize_cache_arguments_iff_example =
    normalize_cache_arguments_iff untidy (level ∷ []) fits.0 fits.1

abbrev tile : TileId
tile = record { level = pos 2; x = pos 1; y = negsuc 3; z = pos 0 }

tile-FitsTileId : FitsTileId tile
tile-FitsTileId = record { level = omega arith; x = omega arith; y = omega arith; z = omega arith }

tile_valid : tile_is_valid tile ≡ true
unfolding tile_is_valid
tile_valid = refl

tile_to_string-injective_example : tile ≡ tile
tile_to_string-injective_example =
    tile_to_string-injective tile tile tile-FitsTileId tile-FitsTileId tile_valid tile_valid refl

abbrev somewhere : Vec3d
somewhere = record { x = 5; y = 6; z = 7 }

bounds_is_valid-expand_all_example :
    bounds_is_valid (expand_all empty_bounds (somewhere ∷ []))
    ≡ any_of vec_is_finite (somewhere ∷ [])
bounds_is_valid-expand_all_example = bounds_is_valid-expand_all (somewhere ∷ [])

expand_all-empty_bounds_example :
    All (HoldsFinite (expand_all empty_bounds (somewhere ∷ []))) (somewhere ∷ [])
expand_all-empty_bounds_example = expand_all-empty_bounds (somewhere ∷ [])
