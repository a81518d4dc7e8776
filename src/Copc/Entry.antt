-- ===== src/Copc/Entry.antt =====
-- `CopcInfo`, `CopcHierarchyEntry` and `CopcHeader` of libs/usd-copc, with their `IsValid`.
use usd_pointcloud_plugins.Prelude.{ℕ, ◌+◌, ◌-◌, ◌%◌, Bool, not, ◌&&◌, ◌||◌, ltb, leb, ◌==◌, Bytes}
use usd_pointcloud_plugins.Prelude.Int.{ℤ, pos, negsuc, eqb_ℤ, ltb_ℤ, leb_ℤ, signed}
use usd_pointcloud_plugins.Core.Float64.{is_finite, lt_f64, le_f64, zero_bits}
use usd_pointcloud_plugins.Las.Bytes.{read_little}
use usd_pointcloud_plugins.Las.Header.{LasHeader, las_header_is_valid}

abbrev pub hierarchy_entry_size : ℕ
hierarchy_entry_size = 32

unfoldable pub is_file_range_valid : ℕ → ℕ → ℕ → Bool
is_file_range_valid file_size offset size = leb offset file_size && leb size (file_size - offset)

pub record CopcInfo : Type 0 where
  pub center_x : ℕ
  pub center_y : ℕ
  pub center_z : ℕ
  pub half_size : ℕ
  pub spacing : ℕ
  pub root_hierarchy_offset : ℕ
  pub root_hierarchy_size : ℕ
  pub gps_time_min : ℕ
  pub gps_time_max : ℕ

unfoldable pub info_is_valid : CopcInfo → Bool
info_is_valid i =
    is_finite i.center_x
    && is_finite i.center_y
    && is_finite i.center_z
    && is_finite i.half_size
    && is_finite i.spacing
    && lt_f64 zero_bits i.half_size
    && lt_f64 zero_bits i.spacing
    && ltb 0 i.root_hierarchy_offset
    && ltb 0 i.root_hierarchy_size
    && is_finite i.gps_time_min
    && is_finite i.gps_time_max
    && le_f64 i.gps_time_min i.gps_time_max

-- The integers of an entry have 32 bits, the offset has 64.
pub record Entry : Type 0 where
  pub level : ℤ
  pub x : ℤ
  pub y : ℤ
  pub z : ℤ
  pub offset : ℕ
  pub byte_size : ℤ
  pub point_count : ℤ

unfoldable pub entry_is_valid : Entry → Bool
entry_is_valid e =
    leb_ℤ (pos 0) e.level
    && leb_ℤ (negsuc 0) e.point_count
    && leb_ℤ (pos 0) e.byte_size
    && ((eqb_ℤ e.point_count (pos 0) && e.offset == 0 && eqb_ℤ e.byte_size (pos 0))
        || (not (eqb_ℤ e.point_count (pos 0)) && ltb 0 e.offset && ltb_ℤ (pos 0) e.byte_size))

unfoldable pub is_hierarchy_page : Entry → Bool
is_hierarchy_page e = eqb_ℤ e.point_count (negsuc 0)

unfoldable pub is_point_data : Entry → Bool
is_point_data e = ltb_ℤ (pos 0) e.point_count

-- The entry at a place of a page.
unfoldable pub entry_at : Bytes → ℕ → Entry
entry_at page k = record {
  level = signed 32 (read_little 4 page k);
  x = signed 32 (read_little 4 page (k + 4));
  y = signed 32 (read_little 4 page (k + 8));
  z = signed 32 (read_little 4 page (k + 12));
  offset = read_little 8 page (k + 16);
  byte_size = signed 32 (read_little 4 page (k + 24));
  point_count = signed 32 (read_little 4 page (k + 28));
}

pub record CopcHeader : Type 0 where
  pub las : LasHeader
  pub info : CopcInfo
  pub file_size : ℕ

unfoldable pub copc_header_is_valid : CopcHeader → Bool
copc_header_is_valid h =
    las_header_is_valid h.las
    && h.las.version_major == 1
    && h.las.version_minor == 4
    && leb 6 h.las.point_format
    && leb h.las.point_format 8
    && info_is_valid h.info
    && ltb 0 h.file_size
    && h.info.root_hierarchy_size % hierarchy_entry_size == 0
    && is_file_range_valid h.file_size h.info.root_hierarchy_offset h.info.root_hierarchy_size
