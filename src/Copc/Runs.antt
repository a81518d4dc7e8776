-- ===== src/Copc/Runs.antt =====
-- Runs of the hierarchy reader on a file of one page.
use usd_pointcloud_plugins.Prelude.{
  ℕ, ◌≡◌, ◌≢◌, refl, [], ◌∷◌, ◌++◌, Bytes, take, drop, All, arith, replicate,
}
use usd_pointcloud_plugins.Prelude.Int.{pos}
use usd_pointcloud_plugins.Prelude.Words.{from_bytes}
use usd_pointcloud_plugins.Core.Float64.{eq_f64, le_f64, lt_f64, order_key}
use usd_pointcloud_plugins.Core.Bounds.{bounds_is_valid}
use usd_pointcloud_plugins.Core.Diagnostic.{Checked, ok}
use usd_pointcloud_plugins.Las.Bytes.{read_little}
use usd_pointcloud_plugins.Las.Header.{zero_vec, las_header_is_valid}
use usd_pointcloud_plugins.Copc.Entry.{
  Entry, CopcHeader, copc_header_is_valid, info_is_valid, is_file_range_valid, entry_is_valid,
  entry_at, is_hierarchy_page, is_point_data,
}
use usd_pointcloud_plugins.Copc.Hierarchy.{
  read_hierarchy, hierarchy, no_fuel, check_total, read_page, page_read, read_file_range,
  take_entries, take_entry, point_entry, count_points, child_page, unless_at, and_then,
}
use usd_pointcloud_plugins.Copc.Hierarchy.Sound.{Placed, points_sum, read_hierarchy-Placed}
use usd_pointcloud_plugins.Copc.Hierarchy.Fuel.{read_hierarchy-ends}

-- The double 1.0.
abbrev one : ℕ
one = 0x3ff0_0000_0000_0000

abbrev header : CopcHeader
header = record {
  las = record {
    version_major = 1;
    version_minor = 4;
    header_size = 375;
    point_data_offset = 375;
    point_format = 6;
    point_record_length = 30;
    point_count = 5;
    scale = record { x = one; y = one; z = one };
    offset = zero_vec;
    bounds = record { minimum = zero_vec; maximum = zero_vec };
    variable_length_record_count = 0;
    first_extended_offset = 0;
    extended_count = 0;
  };
  info = record {
    center_x = 0;
    center_y = 0;
    center_z = 0;
    half_size = one;
    spacing = one;
    root_hierarchy_offset = 10;
    root_hierarchy_size = 32;
    gps_time_min = 0;
    gps_time_max = 0;
  };
  file_size = 42;
}

-- The root, with five points in the six bytes at 2.
abbrev file : Bytes
file =
    replicate 26 0
    ++ ((2 ∷ 0 ∷ 0 ∷ 0 ∷ 0 ∷ 0 ∷ 0 ∷ 0 ∷ []) ++ ((6 ∷ 0 ∷ 0 ∷ 0 ∷ []) ++ (5 ∷ 0 ∷ 0 ∷ 0 ∷ [])))

abbrev read : ℕ → ℕ → Checked Bytes
read offset size = ok (take size (drop offset file))

abbrev root : Entry
root = record {
  level = pos 0;
  x = pos 0;
  y = pos 0;
  z = pos 0;
  offset = 2;
  byte_size = pos 6;
  point_count = pos 5;
}

root_page_run : read_hierarchy header read 43 ≡ hierarchy (root ∷ [])
unfolding read_hierarchy check_total read_page page_read read_file_range take_entries take_entry
    point_entry count_points child_page unless_at and_then copc_header_is_valid info_is_valid
    is_file_range_valid entry_is_valid entry_at is_hierarchy_page is_point_data read_little
    from_bytes las_header_is_valid eq_f64 le_f64 lt_f64 order_key bounds_is_valid
root_page_run = refl

read_hierarchy-Placed_example : (points_sum (root ∷ []) ≡ 5) × All (Placed header) (root ∷ [])
read_hierarchy-Placed_example =
    read_hierarchy-Placed header read 43 (root ∷ []) (omega arith) root_page_run

read_hierarchy-ends_example : read_hierarchy header read 43 ≢ no_fuel
read_hierarchy-ends_example = read_hierarchy-ends header read
