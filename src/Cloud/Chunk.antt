-- ===== src/Cloud/Chunk.antt =====
-- `PointChunk`, its `IsValid` and `MakePointChunk` of libs/usd-pointcloud-core/src/PointCloud.cpp.
pub mod Valid
use usd_pointcloud_plugins.Prelude.{
  ℕ, zero, suc, Bool, true, false, not, ◌&&◌, ◌||◌, if◌then◌else◌, ltb, ◌==◌, List, [], ◌∷◌, ◌++◌,
  Bytes, bytes_eq, is_empty, any_of, all_of, length,
}
use usd_pointcloud_plugins.Core.Bounds.{SpatialBounds, bounds_is_valid}
use usd_pointcloud_plugins.Cloud.Attribute.{PointAttribute, PointAttributeType, attribute_is_valid}
use usd_pointcloud_plugins.Cloud.PointData.{PointData}
use usd_pointcloud_plugins.Cloud.Names.{normalize_extra_byte_names}
use usd_pointcloud_plugins.Cloud.Names.Fixed.{
  intensity_name, return_number_name, number_of_returns_name, classification_name,
  classification_flags_name, scanner_channel_name, scan_direction_flag_name,
  edge_of_flight_line_name, user_data_name, scan_angle_name, point_source_id_name, red_name,
  green_name, blue_name, nir_name, gps_time_name, waveform_descriptor_index_name,
  waveform_data_offset_name, waveform_packet_size_name, return_point_waveform_location_name,
  waveform_xt_name, waveform_yt_name, waveform_zt_name, waveform_data_external_name,
}

pub record PointChunk : Type 0 where
  pub point_count : ℕ
  pub bounds : SpatialBounds
  pub attributes : List PointAttribute

unfoldable pub names_differ : List PointAttribute → Bool
names_differ [] = true
names_differ (a ∷ rest) = not (any_of (λ o. bytes_eq o.name a.name) rest) && names_differ rest

unfoldable pub point_chunk_is_valid : PointChunk → Bool
point_chunk_is_valid c =
    if c.point_count == 0
    then not (bounds_is_valid c.bounds) && is_empty c.attributes
    else bounds_is_valid c.bounds
      && all_of attribute_is_valid c.attributes
      && names_differ c.attributes

-- A column that may be added: its attribute and its size.
pub record Column : Type 0 where
  pub attribute : PointAttribute
  pub size : ℕ

abbrev pub column : Bytes → PointAttributeType → ℕ → Column
column name type size = record { attribute = record { name = name; type = type }; size = size }

-- `add` on one column after the other.
unfoldable pub add_columns : List Column → List PointAttribute
add_columns [] = []
add_columns (c ∷ cs) = let rest = add_columns cs in if c.size == 0 then rest else c.attribute ∷ rest

unfoldable pub columns : PointData → List Column
columns d =
    column intensity_name PointAttributeType.uint16 (length d.intensity)
    ∷ column return_number_name PointAttributeType.uint8 (length d.return_number)
    ∷ column number_of_returns_name PointAttributeType.uint8 (length d.number_of_returns)
    ∷ column classification_name PointAttributeType.uint8 (length d.classification)
    ∷ column classification_flags_name PointAttributeType.uint8 (length d.classification_flags)
    ∷ column scanner_channel_name PointAttributeType.uint8 (length d.scanner_channel)
    ∷ column scan_direction_flag_name PointAttributeType.uint8 (length d.scan_direction_flag)
    ∷ column edge_of_flight_line_name PointAttributeType.uint8 (length d.edge_of_flight_line)
    ∷ column user_data_name PointAttributeType.uint8 (length d.user_data)
    ∷ column scan_angle_name PointAttributeType.int16 (length d.scan_angle)
    ∷ column point_source_id_name PointAttributeType.uint16 (length d.point_source_id)
    ∷ column red_name PointAttributeType.uint16 (length d.red)
    ∷ column green_name PointAttributeType.uint16 (length d.green)
    ∷ column blue_name PointAttributeType.uint16 (length d.blue)
    ∷ column nir_name PointAttributeType.uint16 (length d.nir)
    ∷ column gps_time_name PointAttributeType.float64 (length d.gps_time)
    ∷ column waveform_descriptor_index_name PointAttributeType.uint8
        (length d.waveform_descriptor_index)
    ∷ column waveform_data_offset_name PointAttributeType.uint64 (length d.waveform_data_offset)
    ∷ column waveform_packet_size_name PointAttributeType.uint32 (length d.waveform_packet_size)
    ∷ column return_point_waveform_location_name PointAttributeType.float32
        (length d.return_point_waveform_location)
    ∷ column waveform_xt_name PointAttributeType.float32 (length d.waveform_xt)
    ∷ column waveform_yt_name PointAttributeType.float32 (length d.waveform_yt)
    ∷ column waveform_zt_name PointAttributeType.float32 (length d.waveform_zt)
    ∷ column waveform_data_external_name PointAttributeType.uint8 (length d.waveform_data_external)
    ∷ []

-- The number of components at the front; `one` when the data has no such numbers at all.
unfoldable pub first_component_count : Bool → List ℕ → ℕ
first_component_count true counts = 1
first_component_count false [] = 0
first_component_count false (c ∷ cs) = c

unfoldable pub vector_type : ℕ → PointAttributeType
vector_type count =
    if count == 1
    then PointAttributeType.float64
    else (if count == 2 then PointAttributeType.float64_vec2 else PointAttributeType.float64_vec3)

unfoldable pub but_first : List ℕ → List ℕ
but_first [] = []
but_first (c ∷ cs) = cs

-- The loop over the extra bytes, whose index runs through the names and the numbers of components.
unfoldable pub extra_attributes : Bool → List (List ℕ) → List Bytes → List ℕ → List PointAttribute
extra_attributes one [] names counts = []
extra_attributes one (v ∷ vs) [] counts = []
extra_attributes one (v ∷ vs) (n ∷ ns) counts =
    let rest = extra_attributes one vs ns (but_first counts) in
    let count = first_component_count one counts in
    if is_empty v || ltb count 1 || ltb 3 count
    then rest
    else (record { name = n; type = vector_type count } ∷ rest)

unfoldable pub make_point_chunk : PointData → SpatialBounds → PointChunk
make_point_chunk d bounds = record {
  point_count = length d.positions;
  bounds = bounds;
  attributes =
      add_columns (columns d)
      ++ extra_attributes (is_empty d.extra_byte_component_counts) d.extra_bytes
          (normalize_extra_byte_names d.extra_byte_names) d.extra_byte_component_counts;
}
