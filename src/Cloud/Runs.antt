-- ===== src/Cloud/Runs.antt =====
-- Runs of the sampling on three points.
use usd_pointcloud_plugins.Prelude.{
  ℕ, ◌<◌, ◌≡◌, refl, true, not, is_empty, String, all_of, Bytes, List, [], ◌∷◌, length, All, arith,
}
use usd_pointcloud_plugins.Core.Bounds.{Vec3d, SpatialBounds, bounds_is_valid}
use usd_pointcloud_plugins.Core.Float64.{le_f64, order_key}
use usd_pointcloud_plugins.Cloud.Names.{is_used, normalize_extra_byte_names}
use usd_pointcloud_plugins.Cloud.Names.Fixed.{reserved_names, red_name}
use usd_pointcloud_plugins.Cloud.Names.Unique.{
  distinct, is_identifier, normalize_extra_byte_names-distinct,
}
use usd_pointcloud_plugins.Prelude.Int.{pos}
use usd_pointcloud_plugins.Cloud.Lod.{
  PointLodItem, PointLodHierarchy, PointTile, hierarchy_is_valid, point_tile_is_valid,
  validate_point_lod_hierarchy, validate_point_tile,
}
use usd_pointcloud_plugins.Cloud.Lod.Agree.{
  validate_point_lod_hierarchy_iff, validate_point_tile_iff,
}
use usd_pointcloud_plugins.Cloud.Chunk.{point_chunk_is_valid, make_point_chunk}
use usd_pointcloud_plugins.Cloud.Chunk.Valid.{make_point_chunk-point_chunk_is_valid}
use usd_pointcloud_plugins.Core.Diagnostic.{ok}
use usd_pointcloud_plugins.Cloud.PointData.{
  PointData, has_point_count_or_is_empty, has_valid_extra_byte_values, component_counts,
  extra_byte_values_valid, columns_have_count, columns_come_together, extra_bytes_valid,
  point_data_is_valid,
}
use usd_pointcloud_plugins.Cloud.Sampling.{
  SamplingOptions, options_are_valid, fixed_stride, source_index, source_indices, sample_attribute,
  sample_components, sample_extra_byte_attribute, sample_extra_bytes, sampled, sample_point_data,
}
use usd_pointcloud_plugins.Cloud.Sampling.Stride.{Rising, source_indices-Rising}
use usd_pointcloud_plugins.Cloud.Sampling.Valid.{sample_point_data-IsValid}

source_indices-Rising_example :
    let indices = source_indices 10 4 0 4 in
    (length indices ≡ 4) × Rising 0 indices × All (λ i. i < 10) indices
source_indices-Rising_example = source_indices-Rising 10 4 (omega arith) (omega arith) (omega arith)

abbrev place : ℕ → Vec3d
place n = record { x = n; y = n; z = n }

-- Points with a column of intensities and pairs of extra bytes.
abbrev data_of : List Vec3d → List ℕ → List (List ℕ) → PointData
data_of positions intensity extra = record {
  positions = positions;
  intensity = intensity;
  return_number = [];
  number_of_returns = [];
  classification = [];
  classification_flags = [];
  scanner_channel = [];
  scan_direction_flag = [];
  edge_of_flight_line = [];
  user_data = [];
  scan_angle = [];
  point_source_id = [];
  red = [];
  green = [];
  blue = [];
  color_bit_depth = 16;
  nir = [];
  gps_time = [];
  waveform_descriptor_index = [];
  waveform_data_offset = [];
  waveform_packet_size = [];
  return_point_waveform_location = [];
  waveform_xt = [];
  waveform_yt = [];
  waveform_zt = [];
  waveform_data_external = [];
  waveform_data_file = [];
  extra_byte_names = (b'e' ∷ []) ∷ [];
  extra_byte_component_counts = 2 ∷ [];
  extra_bytes = extra;
}

abbrev three_points : PointData
three_points =
    data_of (place 1 ∷ place 2 ∷ place 3 ∷ []) (10 ∷ 20 ∷ 30 ∷ [])
      ((1 ∷ 2 ∷ 3 ∷ 4 ∷ 5 ∷ 6 ∷ []) ∷ [])

abbrev two_of_them : PointData
two_of_them = data_of (place 1 ∷ place 2 ∷ []) (10 ∷ 20 ∷ []) ((1 ∷ 2 ∷ 3 ∷ 4 ∷ []) ∷ [])

abbrev two_wanted : SamplingOptions
two_wanted = record { target_point_count = 2; algorithm = fixed_stride; algorithm_version = 1 }

sampled_two : sample_point_data three_points two_wanted ≡ ok two_of_them
unfolding sample_point_data point_data_is_valid columns_have_count has_point_count_or_is_empty
    extra_bytes_valid extra_byte_values_valid component_counts has_valid_extra_byte_values
    columns_come_together options_are_valid source_indices source_index sampled sample_attribute
    sample_extra_bytes sample_extra_byte_attribute sample_components
sampled_two = refl

sample_point_data-IsValid_example :
    (point_data_is_valid two_of_them ≡ true) × (length two_of_them.positions ≡ 2)
sample_point_data-IsValid_example =
    sample_point_data-IsValid three_points two_of_them two_wanted (omega arith) sampled_two

-- A reserved name, twice.
abbrev reds : List Bytes
reds = red_name ∷ red_name ∷ []

normalize_extra_byte_names-distinct_example :
    (length (normalize_extra_byte_names reds) ≡ 2)
    × (distinct (normalize_extra_byte_names reds) ≡ true)
    × (all_of (λ r. not (is_used r (normalize_extra_byte_names reds))) reserved_names ≡ true)
    × (all_of is_identifier (normalize_extra_byte_names reds) ≡ true)
normalize_extra_byte_names-distinct_example = normalize_extra_byte_names-distinct reds (omega arith)

abbrev box_of_three : SpatialBounds
box_of_three = record { minimum = place 1; maximum = place 3 }

box_of_three_valid : bounds_is_valid box_of_three ≡ true
unfolding bounds_is_valid le_f64 order_key
box_of_three_valid = refl

make_point_chunk-point_chunk_is_valid_example :
    point_chunk_is_valid (make_point_chunk three_points box_of_three) ≡ true
make_point_chunk-point_chunk_is_valid_example =
    make_point_chunk-point_chunk_is_valid three_points box_of_three refl box_of_three_valid
      (omega arith)

abbrev item_message : ℕ → String
item_message n = "LOD item is invalid"

abbrev item_of : ℕ → ℕ → PointLodItem
item_of index count = record {
  index = index;
  point_count = count;
  bounds = box_of_three;
  source_range = record { first_point = 0; point_count = 8 };
  spacing = 0;
}

-- Eight points, then two, from a screen size of a half down.
abbrev two_levels : PointLodHierarchy
two_levels = record {
  bounds = box_of_three;
  items = item_of 0 8 ∷ item_of 1 2 ∷ [];
  default_index = 0;
  screen_size_thresholds = 0x3f00_0000 ∷ [];
}

abbrev tile_of_two : PointTile
tile_of_two = record {
  id = record { level = pos 0; x = pos 0; y = pos 0; z = pos 0 };
  bounds = box_of_three;
  children = record { level = pos 1; x = pos 0; y = pos 0; z = pos 0 } ∷ [];
  lod = two_levels;
}

validate_point_lod_hierarchy_iff_example :
    ((validate_point_lod_hierarchy item_message two_levels).0 ≡ hierarchy_is_valid two_levels)
    × (is_empty (validate_point_lod_hierarchy item_message two_levels).1
        ≡ hierarchy_is_valid two_levels)
validate_point_lod_hierarchy_iff_example = validate_point_lod_hierarchy_iff item_message two_levels

validate_point_tile_iff_example :
    ((validate_point_tile item_message tile_of_two).0 ≡ point_tile_is_valid tile_of_two)
    × (is_empty (validate_point_tile item_message tile_of_two).1 ≡ point_tile_is_valid tile_of_two)
validate_point_tile_iff_example = validate_point_tile_iff item_message tile_of_two
