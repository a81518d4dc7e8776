-- ===== src/Cloud/PointData.antt =====
-- `PointData` of libs/usd-pointcloud-core and its `IsValid`: the columns of a set of points. A value of
-- an integer or floating type is its bit pattern.
use usd_pointcloud_plugins.Prelude.{
  ℕ, ◌-◌, ◌*◌, ◌/◌, ◌^◌, Bool, true, false, ◌&&◌, ◌||◌, leb, ◌==◌, is_empty, List, [], ◌∷◌, Bytes,
  length,
}
use usd_pointcloud_plugins.Core.Bounds.{Vec3d}

pub record PointData : Type 0 where
  pub positions : List Vec3d
  pub intensity : List ℕ
  pub return_number : List ℕ
  pub number_of_returns : List ℕ
  pub classification : List ℕ
  pub classification_flags : List ℕ
  pub scanner_channel : List ℕ
  pub scan_direction_flag : List ℕ
  pub edge_of_flight_line : List ℕ
  pub user_data : List ℕ
  pub scan_angle : List ℕ
  pub point_source_id : List ℕ
  pub red : List ℕ
  pub green : List ℕ
  pub blue : List ℕ
  pub color_bit_depth : ℕ
  pub nir : List ℕ
  pub gps_time : List ℕ
  pub waveform_descriptor_index : List ℕ
  pub waveform_data_offset : List ℕ
  pub waveform_packet_size : List ℕ
  pub return_point_waveform_location : List ℕ
  pub waveform_xt : List ℕ
  pub waveform_yt : List ℕ
  pub waveform_zt : List ℕ
  pub waveform_data_external : List ℕ
  pub waveform_data_file : Bytes
  pub extra_byte_names : List Bytes
  pub extra_byte_component_counts : List ℕ
  pub extra_bytes : List (List ℕ)

unfoldable pub has_point_count_or_is_empty : List ℕ → ℕ → Bool
has_point_count_or_is_empty values count = is_empty values || length values == count

-- `==` of two Booleans.
abbrev pub same_bool : Bool → Bool → Bool
same_bool true b = b
same_bool false true = false
same_bool false false = true

unfoldable pub has_valid_extra_byte_values : ℕ → ℕ → List ℕ → Bool
has_valid_extra_byte_values count components values =
    leb 1 components
    && leb components 3
    && (is_empty values
        || (leb count ((2 ^ 64 - 1) / components) && length values == count * components))

-- The component count of each column of extra bytes: one, where none are given.
unfoldable pub component_counts : List ℕ → List (List ℕ) → List ℕ
component_counts counts [] = []
component_counts [] (values ∷ columns) = 1 ∷ component_counts [] columns
component_counts (c ∷ counts) (values ∷ columns) = c ∷ component_counts counts columns

unfoldable pub extra_byte_values_valid : ℕ → List ℕ → List (List ℕ) → Bool
extra_byte_values_valid count (c ∷ counts) (values ∷ columns) =
    has_valid_extra_byte_values count c values && extra_byte_values_valid count counts columns
extra_byte_values_valid count counts columns = true

unfoldable pub columns_have_count : PointData → ℕ → Bool
columns_have_count d n =
    has_point_count_or_is_empty d.intensity n
    && has_point_count_or_is_empty d.return_number n
    && has_point_count_or_is_empty d.number_of_returns n
    && has_point_count_or_is_empty d.classification n
    && has_point_count_or_is_empty d.classification_flags n
    && has_point_count_or_is_empty d.scanner_channel n
    && has_point_count_or_is_empty d.scan_direction_flag n
    && has_point_count_or_is_empty d.edge_of_flight_line n
    && has_point_count_or_is_empty d.user_data n
    && has_point_count_or_is_empty d.scan_angle n
    && has_point_count_or_is_empty d.point_source_id n
    && has_point_count_or_is_empty d.red n
    && has_point_count_or_is_empty d.green n
    && has_point_count_or_is_empty d.blue n
    && has_point_count_or_is_empty d.nir n
    && has_point_count_or_is_empty d.gps_time n
    && has_point_count_or_is_empty d.waveform_descriptor_index n
    && has_point_count_or_is_empty d.waveform_data_offset n
    && has_point_count_or_is_empty d.waveform_packet_size n
    && has_point_count_or_is_empty d.return_point_waveform_location n
    && has_point_count_or_is_empty d.waveform_xt n
    && has_point_count_or_is_empty d.waveform_yt n
    && has_point_count_or_is_empty d.waveform_zt n
    && has_point_count_or_is_empty d.waveform_data_external n

unfoldable pub columns_come_together : PointData → Bool
columns_come_together d =
    same_bool (is_empty d.return_number) (is_empty d.number_of_returns)
    && same_bool (is_empty d.red) (is_empty d.green)
    && same_bool (is_empty d.red) (is_empty d.blue)
    && same_bool (is_empty d.waveform_descriptor_index) (is_empty d.waveform_data_offset)
    && same_bool (is_empty d.waveform_descriptor_index) (is_empty d.waveform_packet_size)
    && same_bool (is_empty d.waveform_descriptor_index) (is_empty d.return_point_waveform_location)
    && same_bool (is_empty d.waveform_descriptor_index) (is_empty d.waveform_xt)
    && same_bool (is_empty d.waveform_descriptor_index) (is_empty d.waveform_yt)
    && same_bool (is_empty d.waveform_descriptor_index) (is_empty d.waveform_zt)
    && same_bool (is_empty d.waveform_descriptor_index) (is_empty d.waveform_data_external)

unfoldable pub extra_bytes_valid : PointData → ℕ → Bool
extra_bytes_valid d n =
    length d.extra_byte_names == length d.extra_bytes
    && (is_empty d.extra_byte_component_counts
        || length d.extra_byte_component_counts == length d.extra_bytes)
    && extra_byte_values_valid n (component_counts d.extra_byte_component_counts d.extra_bytes)
        d.extra_bytes

unfoldable pub point_data_is_valid : PointData → Bool
point_data_is_valid d =
    (d.color_bit_depth == 8 || d.color_bit_depth == 16)
    && columns_have_count d (length d.positions)
    && extra_bytes_valid d (length d.positions)
    && columns_come_together d
