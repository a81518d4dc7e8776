-- ===== src/Las/Header.antt =====
-- `InspectHeader` of LasFormat.cpp. A refusal keeps the fields that were read before it.
pub mod Accepted
use usd_pointcloud_plugins.Prelude.{
  ℕ, ◌+◌, bit_and, Bool, true, false, not, ◌&&◌, ◌||◌, if◌then◌else◌, ltb, leb, ◌==◌, List, [], ◌∷◌,
  Bytes, bytes_eq, take, String, Option, none, some,
}
use usd_pointcloud_plugins.Core.Float64.{is_finite, eq_f64, zero_bits}
use usd_pointcloud_plugins.Core.Bounds.{Vec3d, SpatialBounds, empty_bounds, bounds_is_valid}
use usd_pointcloud_plugins.Core.Diagnostic.{Diagnostic, an_error}
use usd_pointcloud_plugins.Las.Bytes.{has, read_little}
use usd_pointcloud_plugins.Las.Format.{
  is_supported_format_for_version, minimum_header_size, minimum_record_length,
}

-- The fields of `LasHeader` that `InspectHeader` reads; the others belong to the records behind the
-- header.
pub record LasHeader : Type 0 where
  pub version_major : ℕ
  pub version_minor : ℕ
  pub header_size : ℕ
  pub point_data_offset : ℕ
  pub point_format : ℕ
  pub point_record_length : ℕ
  pub point_count : ℕ
  pub scale : Vec3d
  pub offset : Vec3d
  pub bounds : SpatialBounds
  pub variable_length_record_count : ℕ
  pub first_extended_offset : ℕ
  pub extended_count : ℕ

abbrev pub zero_vec : Vec3d
zero_vec = record { x = 0; y = 0; z = 0 }

abbrev pub default_header : LasHeader
default_header = record {
  version_major = 0;
  version_minor = 0;
  header_size = 0;
  point_data_offset = 0;
  point_format = 0;
  point_record_length = 0;
  point_count = 0;
  scale = zero_vec;
  offset = zero_vec;
  bounds = empty_bounds;
  variable_length_record_count = 0;
  first_extended_offset = 0;
  extended_count = 0;
}

unfoldable pub las_header_is_valid : LasHeader → Bool
las_header_is_valid h =
    h.version_major == 1
    && leb 2 h.version_minor
    && leb h.version_minor 4
    && ltb 0 h.header_size
    && ltb 0 h.point_record_length
    && is_finite h.scale.x
    && is_finite h.scale.y
    && is_finite h.scale.z
    && not (eq_f64 h.scale.x zero_bits)
    && not (eq_f64 h.scale.y zero_bits)
    && not (eq_f64 h.scale.z zero_bits)
    && bounds_is_valid h.bounds

-- The header as far as it was read, accepted or refused with an error.
pub data Inspection : Type 0 where
  accepted : LasHeader → Inspection
  refused : LasHeader → String → Inspection

-- `if (bad) { error = m; return false; }` and the code behind it.
unfoldable pub refuse_when : Bool → LasHeader → String → Inspection → Inspection
refuse_when true h m rest = refused h m
refuse_when false h m rest = rest

-- "LASF"
abbrev pub las_signature : Bytes
las_signature = 0x4c ∷ 0x41 ∷ 0x53 ∷ 0x46 ∷ []

unfoldable pub inspect_values : Bytes → LasHeader → Inspection
inspect_values bytes h0 =
    let f = read_little 8 bytes in
    let h = record h0 {
      scale = record { x = f 131; y = f 139; z = f 147 };
      offset = record { x = f 155; y = f 163; z = f 171 };
      bounds = record {
        minimum = record { x = f 187; y = f 203; z = f 219 };
        maximum = record { x = f 179; y = f 195; z = f 211 };
      };
    } in
    refuse_when (not (las_header_is_valid h)) h
      "LAS header contains invalid scales, offsets, or bounds"
      (refuse_when (ltb h.point_record_length (minimum_record_length h.point_format)) h
        "LAS point record length is too small for its format" (accepted h))

unfoldable pub inspect_extended : Bytes → LasHeader → Inspection
inspect_extended bytes h =
    refuse_when (not (has bytes 247 8)) h "LAS 1.4 extended point count is missing" (
      inspect_values bytes (record h {
        point_count = read_little 8 bytes 247;
        first_extended_offset = read_little 8 bytes 235;
        extended_count = read_little 4 bytes 243;
      }))

unfoldable pub inspect_count : Bytes → LasHeader → Inspection
inspect_count bytes h0 =
    let h = record h0 { point_count = read_little 4 bytes 107 } in
    if h.version_minor == 4 then inspect_extended bytes h else inspect_values bytes h

unfoldable pub inspect_version : Bytes → LasHeader → Inspection
inspect_version bytes h =
    refuse_when (not (h.version_major == 1) || ltb h.version_minor 2 || ltb 4 h.version_minor) h
      "unsupported LAS version"
      (refuse_when (not (is_supported_format_for_version h.version_minor h.point_format)) h
        "unsupported LAS point format"
        (refuse_when
          (ltb h.header_size (minimum_header_size h.version_minor)
            || ltb h.point_data_offset h.header_size
            || not (has bytes 0 h.header_size))
          h "LAS header offsets are invalid" (inspect_count bytes h)))

unfoldable pub inspect_fixed : Bytes → Inspection
inspect_fixed bytes =
    let h = record default_header {
      version_major = read_little 1 bytes 24;
      version_minor = read_little 1 bytes 25;
      header_size = read_little 2 bytes 94;
      point_data_offset = read_little 4 bytes 96;
      variable_length_record_count = read_little 4 bytes 100;
    } in
    let encoded = read_little 1 bytes 104 in
    refuse_when (bit_and encoded 0xc0 == 0xc0) h
      "LAS point format uses unsupported compression flags"
      (inspect_version bytes (record h {
        point_format = bit_and encoded 0x3f;
        point_record_length = read_little 2 bytes 105;
      }))

unfoldable pub inspect_header : Bytes → Inspection
inspect_header bytes =
    refuse_when (not (has bytes 0 227) || not (bytes_eq (take 4 bytes) las_signature))
      default_header "LAS header is missing or has an invalid signature" (inspect_fixed bytes)
