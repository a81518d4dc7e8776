-- ===== src/Las/Runs.antt =====
-- Runs of the LAS reader on a small header, records and descriptors.
use usd_pointcloud_plugins.Prelude.{
  ℕ, ◌+◌, ◌≤◌, ◌≡◌, ◌↔◌, refl, false, true, List, [], ◌∷◌, ◌++◌, length, replicate, All, Option,
  none, arith, Bytes, String,
}
use usd_pointcloud_plugins.Prelude.Words.{from_bytes}
use usd_pointcloud_plugins.Core.Bounds.{bounds_is_valid}
use usd_pointcloud_plugins.Core.Float64.{eq_f64, le_f64, order_key}
use usd_pointcloud_plugins.Las.Bytes.{has, read_little}
use usd_pointcloud_plugins.Las.Format.{
  ExtraBytesDescriptor, validate_extra_bytes_layout, minimum_record_length,
  is_supported_format_for_version, is_supported_format, minimum_header_size,
}
use usd_pointcloud_plugins.Las.Format.Layout.{
  IsKnownType, values_size, validate_extra_bytes_layout_iff,
}
use usd_pointcloud_plugins.Las.Header.{
  LasHeader, accepted, inspect_header, inspect_fixed, inspect_version, inspect_count,
  inspect_values, refuse_when, las_header_is_valid, zero_vec,
}
use usd_pointcloud_plugins.Las.Header.Accepted.{
  accepted_header, header_if, header_in, is_las, inspect_header-is_las,
}
use usd_pointcloud_plugins.Las.Format.{
  extra_byte_scalar_size, extra_byte_component_count, scalar_type, scalar_type_size,
  extra_bytes_size, check_sized,
}
use usd_pointcloud_plugins.Las.Point.{record_is_usable, decode_point}
use usd_pointcloud_plugins.Las.Point.Extras.{
  value_error_only, decode_point-validate_extra_bytes_layout,
}
use usd_pointcloud_plugins.Las.Records.{
  VariableLengthRecord, read_records, records_size, data_length,
}
use usd_pointcloud_plugins.Las.Records.RoundTrip.{
  FitsRecord, records_bytes, read_records-records_bytes,
}
use usd_pointcloud_plugins.Las.Records.Within.{LaidOut, read_records-within}

-- Descriptors of a pair of 32-bit numbers and of a byte.
abbrev descriptor : ℕ → ExtraBytesDescriptor
descriptor t = record {
  data_type = t;
  options = 0;
  name = [];
  no_data = zero_vec;
  minimum = zero_vec;
  maximum = zero_vec;
  scale = zero_vec;
  offset = zero_vec;
  description = [];
}

abbrev descriptors : List ExtraBytesDescriptor
descriptors = descriptor 15 ∷ descriptor 1 ∷ []

validate_extra_bytes_layout_iff_example :
    (validate_extra_bytes_layout 3 43 descriptors ≡ none)
    ↔ (All IsKnownType descriptors × (43 ≡ minimum_record_length 3 + values_size descriptors))
validate_extra_bytes_layout_iff_example =
    validate_extra_bytes_layout_iff 3 43 descriptors (omega arith)

abbrev note : VariableLengthRecord
note = record {
  user_id = b'm' ∷ b'e' ∷ [];
  record_id = 7;
  description = b'a' ∷ [];
  data_bytes = 1 ∷ 2 ∷ 3 ∷ [];
  is_extended = false;
}

note-FitsRecord : FitsRecord false note
note-FitsRecord = record {
  user_id = (omega arith, (omega arith, (omega arith, tt)));
  record_id = omega arith;
  description = (omega arith, (omega arith, tt));
  data_bytes = omega arith;
  is_extended = refl;
}

read_records-records_bytes_example :
    ◌≡◌ {A = List VariableLengthRecord × Option String}
      (read_records
        ((9 ∷ 9 ∷ []) ++ (records_bytes false (note ∷ note ∷ []) ++ (5 ∷ [])))
        2
        2
        false)
      (note ∷ note ∷ [], none)
read_records-records_bytes_example =
    read_records-records_bytes false (note ∷ note ∷ []) (9 ∷ 9 ∷ []) (5 ∷ [])
      (note-FitsRecord, (note-FitsRecord, tt))

-- The bytes of one record, with nothing behind it.
abbrev one_record : Bytes
one_record = replicate 18 0 ++ (7 ∷ 0 ∷ 2 ∷ 0 ∷ []) ++ replicate 32 0 ++ (1 ∷ 2 ∷ [])

one_record_read : (read_records one_record 0 1 false).1 ≡ none
unfolding read_records has data_length read_little from_bytes
one_record_read = refl

read_records-within_example :
    let records = (read_records one_record 0 1 false).0 in
    (length records ≡ 1)
    × (0 + records_size false records ≤ length one_record)
    × LaidOut one_record false 0 records
read_records-within_example = read_records-within one_record 0 1 false (omega arith) one_record_read

-- A header of version 1.2 and point format 0, with unit scales and bounds of one point.
abbrev one : Bytes
one = 0 ∷ 0 ∷ 0 ∷ 0 ∷ 0 ∷ 0 ∷ 0xf0 ∷ 0x3f ∷ []

abbrev las_file : Bytes
las_file =
    (0x4c ∷ 0x41 ∷ 0x53 ∷ 0x46 ∷ [])
    ++ (replicate 20 0
        ++ ((1 ∷ 2 ∷ [])
            ++ (replicate 68 0
                ++ ((227 ∷ 0 ∷ 227 ∷ 0 ∷ 0 ∷ 0 ∷ 0 ∷ 0 ∷ 0 ∷ 0 ∷ 0 ∷ 20 ∷ 0 ∷ 0 ∷ 0 ∷ 0 ∷ 0 ∷ [])
                    ++ (replicate 20 0 ++ (one ++ (one ++ (one ++ replicate 72 0))))))))

abbrev las_header : LasHeader
las_header = record {
  version_major = 1;
  version_minor = 2;
  header_size = 227;
  point_data_offset = 227;
  point_format = 0;
  point_record_length = 20;
  point_count = 0;
  scale = record { x = from_bytes one; y = from_bytes one; z = from_bytes one };
  offset = zero_vec;
  bounds = record { minimum = zero_vec; maximum = zero_vec };
  variable_length_record_count = 0;
  first_extended_offset = 0;
  extended_count = 0;
}

las_file_accepted : inspect_header las_file ≡ accepted las_header
unfolding inspect_header inspect_fixed inspect_version inspect_count inspect_values refuse_when has
    read_little from_bytes is_supported_format_for_version is_supported_format minimum_header_size
    minimum_record_length las_header_is_valid eq_f64 bounds_is_valid le_f64 order_key
las_file_accepted = refl

inspect_header-is_las_example :
    accepted_header (inspect_header las_file) ≡ header_if (is_las las_file) (header_in las_file)
inspect_header-is_las_example = inspect_header-is_las las_file

-- A header of format 3 whose records have the two descriptors.
abbrev extra_header : LasHeader
extra_header = record las_header { point_format = 3; point_record_length = 43 }

abbrev no_coordinate : ℕ → ℕ → ℕ → ℕ
no_coordinate a b c = 0

abbrev no_double : ℕ → ℕ → ℕ
no_double a b = 0

extra_layout :
    validate_extra_bytes_layout extra_header.point_format extra_header.point_record_length
      descriptors
    ≡ none
unfolding validate_extra_bytes_layout check_sized extra_bytes_size extra_byte_scalar_size
    extra_byte_component_count scalar_type scalar_type_size minimum_record_length
extra_layout = refl

extra_usable : record_is_usable extra_header (replicate 43 1) ≡ true
unfolding record_is_usable las_header_is_valid is_supported_format_for_version is_supported_format
    minimum_record_length bounds_is_valid eq_f64 le_f64 order_key from_bytes
extra_usable = refl

decode_point-validate_extra_bytes_layout_example :
    value_error_only
      (decode_point no_coordinate no_double no_coordinate extra_header descriptors (replicate 43 1))
    ≡ true
decode_point-validate_extra_bytes_layout_example =
    decode_point-validate_extra_bytes_layout no_coordinate no_double no_coordinate extra_header
      descriptors (replicate 43 1) extra_layout extra_usable
