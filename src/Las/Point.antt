-- ===== src/Las/Point.antt =====
-- `DecodePoint` of libs/usd-las/src/LasPoint.cpp. What rounds is a parameter: `coordinate` is the scaled
-- and moved coordinate of a 32-bit pattern, `to_double` the double of a pattern of a scalar type, and
-- `affine` the scaled and moved value of a double.
pub mod Extras
use usd_pointcloud_plugins.Prelude.{
  ℕ, zero, suc, ◌+◌, ◌-◌, ◌*◌, ◌/◌, ◌%◌, Bool, true, false, not, ◌&&◌, ◌||◌, if◌then◌else◌, ltb,
  leb, ◌==◌, List, [], ◌∷◌, ◌++◌, Bytes, length, String,
}
use usd_pointcloud_plugins.Prelude.Int.{ℤ, pos, negsuc, signed, ltb_ℤ}
use usd_pointcloud_plugins.Core.Float64.{is_finite}
use usd_pointcloud_plugins.Core.Bounds.{Vec3d, vec_is_finite}
use usd_pointcloud_plugins.Las.Bytes.{has, read_little}
use usd_pointcloud_plugins.Las.Format.{
  ExtraBytesDescriptor, is_supported_format_for_version, minimum_record_length,
  extra_byte_scalar_size, extra_byte_component_count,
}
use usd_pointcloud_plugins.Las.Header.{LasHeader, las_header_is_valid, zero_vec}

pub record LasWaveformPacket : Type 0 where
  pub descriptor_index : ℕ
  pub data_offset : ℕ
  pub packet_size : ℕ
  pub return_point_location : ℕ
  pub xt : ℕ
  pub yt : ℕ
  pub zt : ℕ
  pub external : Bool

pub record LasPoint : Type 0 where
  pub source_position : Vec3d
  pub intensity : ℕ
  pub return_number : ℕ
  pub number_of_returns : ℕ
  pub classification : ℕ
  pub classification_flags : ℕ
  pub scanner_channel : ℕ
  pub scan_direction_flag : ℕ
  pub edge_of_flight_line : ℕ
  pub user_data : ℕ
  pub scan_angle : ℤ
  pub point_source_id : ℕ
  pub red : ℕ
  pub green : ℕ
  pub blue : ℕ
  pub nir : ℕ
  pub gps_time : ℕ
  pub extra_bytes : List ℕ
  pub waveform : LasWaveformPacket
  pub has_color : Bool
  pub has_gps_time : Bool
  pub has_waveform : Bool

abbrev pub no_waveform : LasWaveformPacket
no_waveform = record {
  descriptor_index = 0;
  data_offset = 0;
  packet_size = 0;
  return_point_location = 0;
  xt = 0;
  yt = 0;
  zt = 0;
  external = false;
}

-- The errors of the function, one for each message.
pub data DecodeError : Type 0 where
  invalid_record unsupported_type truncated_extra inexact_integer : DecodeError
  non_finite_value non_finite_coordinate : DecodeError

unfoldable pub decode_error_text : DecodeError → String
decode_error_text invalid_record = "LAS point record is invalid or truncated"
decode_error_text unsupported_type = "unsupported LAS Extra Bytes data type"
decode_error_text truncated_extra = "LAS point record Extra Bytes are truncated"
decode_error_text inexact_integer =
    "LAS Extra Bytes integer cannot be represented exactly as double"
decode_error_text non_finite_value = "decoded LAS point contains a non-finite Extra Bytes value"
decode_error_text non_finite_coordinate = "decoded LAS point contains a non-finite coordinate"

-- The extra bytes as far as they are read, or the error that ends them.
pub data ExtraValues : Type 0 where
  values : List ℕ → ExtraValues
  failed : DecodeError → ExtraValues

unfoldable pub fail_when : Bool → DecodeError → ExtraValues → ExtraValues
fail_when true e rest = failed e
fail_when false e rest = rest

unfoldable pub then_values : ExtraValues → (List ℕ → ExtraValues) → ExtraValues
then_values (values vs) rest = rest vs
then_values (failed e) rest = failed e

-- `scalarDataType`
unfoldable pub scalar_data_type : ℕ → ℕ
scalar_data_type t = if leb 11 t then (t - 1) % 10 + 1 else t

-- 2 ^ 53
abbrev pub exact_limit : ℕ
exact_limit = 0x20_0000_0000_0000

unfoldable pub is_inexact : ℕ → Bytes → ℕ → Bool
is_inexact scalar_type record_bytes offset =
    (scalar_type == 7 && ltb exact_limit (read_little 8 record_bytes offset))
    || (scalar_type == 8
        && (ltb_ℤ (pos exact_limit) (signed 64 (read_little 8 record_bytes offset))
            || ltb_ℤ (signed 64 (read_little 8 record_bytes offset)) (negsuc (exact_limit - 1))))

-- The component 0, 1 or 2 of a vector, and the last for any other number.
unfoldable pub component_of : Vec3d → ℕ → ℕ
component_of v i = if i == 0 then v.x else (if i == 1 then v.y else v.z)

module _ (to_double : ℕ → ℕ → ℕ) (affine : ℕ → ℕ → ℕ → ℕ) where
  -- `ReadExtraByteScalar`, which gives zero for a type that is none.
  unfoldable pub read_extra_byte_scalar : Bytes → ℕ → ℕ → ℕ
  read_extra_byte_scalar record_bytes offset data_type =
      if extra_byte_scalar_size data_type == 0
      then 0
      else to_double (scalar_data_type data_type)
          (read_little (extra_byte_scalar_size data_type) record_bytes offset)

  unfoldable pub component_value : ExtraBytesDescriptor → Bytes → ℕ → ℕ → ℕ
  component_value d record_bytes at i =
      affine
        (read_extra_byte_scalar record_bytes (at + extra_byte_scalar_size d.data_type * i)
          d.data_type)
        (component_of d.scale i) (component_of d.offset i)

  -- The loop over the components from `i` on, of which there are `left`.
  unfoldable pub decode_components : ExtraBytesDescriptor → Bytes → ℕ → ℕ → ℕ → List ℕ → ExtraValues
  decode_components d record_bytes at i zero before = values before
  decode_components d record_bytes at i (suc left) before =
      fail_when
        (is_inexact (scalar_data_type d.data_type) record_bytes
          (at + extra_byte_scalar_size d.data_type * i))
        inexact_integer
        (fail_when (not (is_finite (component_value d record_bytes at i))) non_finite_value (
          decode_components d record_bytes at (suc i) left
            (before ++ component_value d record_bytes at i ∷ [])))

  unfoldable pub decode_extras : List ExtraBytesDescriptor → Bytes → ℕ → List ℕ → ExtraValues
  decode_extras [] record_bytes at before = values before
  decode_extras (d ∷ ds) record_bytes at before =
      let size = extra_byte_scalar_size d.data_type in
      let count = extra_byte_component_count d.data_type in
      fail_when (size == 0 || count == 0) unsupported_type (
        fail_when (not (has record_bytes at (size * count))) truncated_extra (
          then_values (decode_components d record_bytes at 0 count before)
            (decode_extras ds record_bytes (at + size * count))))

-- The fields of a modern point, of format 6 or above.
unfoldable pub decode_modern : ℕ → Bytes → LasPoint → LasPoint
decode_modern format r p =
    let flags = read_little 1 r 15 in
    record p {
      classification = read_little 1 r 16;
      classification_flags = flags % 16;
      scanner_channel = flags / 16 % 4;
      scan_direction_flag = flags / 64 % 2;
      edge_of_flight_line = flags / 128 % 2;
      user_data = read_little 1 r 17;
      scan_angle = signed 16 (read_little 2 r 18);
      point_source_id = read_little 2 r 20;
      red = if leb 7 format then read_little 2 r 30 else 0;
      green = if leb 7 format then read_little 2 r 32 else 0;
      blue = if leb 7 format then read_little 2 r 34 else 0;
      has_color = leb 7 format;
      nir = if format == 8 || format == 10 then read_little 2 r 36 else 0;
      gps_time = read_little 8 r 22;
      has_gps_time = true;
    }

unfoldable pub decode_legacy : ℕ → Bytes → LasPoint → LasPoint
decode_legacy format r p =
    let timed = format == 1 || format == 3 in
    let colored = format == 2 || format == 3 in
    let color_offset = if format == 2 then 20 else 28 in
    record p {
      classification = read_little 1 r 15;
      scan_angle = signed 8 (read_little 1 r 16);
      user_data = read_little 1 r 17;
      point_source_id = read_little 2 r 18;
      gps_time = if timed then read_little 8 r 20 else 0;
      has_gps_time = timed;
      red = if colored then read_little 2 r color_offset else 0;
      green = if colored then read_little 2 r (color_offset + 2) else 0;
      blue = if colored then read_little 2 r (color_offset + 4) else 0;
      has_color = colored;
    }

unfoldable pub has_waveform_packet : ℕ → Bool
has_waveform_packet format = format == 4 || format == 5 || format == 9 || format == 10

unfoldable pub waveform_offset : ℕ → ℕ
waveform_offset format =
    if format == 4 then 28 else (if format == 5 then 34 else (if format == 9 then 30 else 38))

unfoldable pub decode_waveform : ℕ → Bytes → LasPoint → LasPoint
decode_waveform format r p =
    let at = waveform_offset format in
    if has_waveform_packet format
    then record p {
      waveform = record {
        descriptor_index = read_little 1 r at % 128;
        external = not (read_little 1 r at / 128 % 2 == 0);
        data_offset = read_little 8 r (at + 1);
        packet_size = read_little 4 r (at + 9);
        return_point_location = read_little 4 r (at + 13);
        xt = read_little 4 r (at + 17);
        yt = read_little 4 r (at + 21);
        zt = read_little 4 r (at + 25);
      };
      has_waveform = true;
    }
    else p

pub data Decoded : Type 0 where
  decoded : LasPoint → Decoded
  undecoded : DecodeError → Decoded

unfoldable pub finish_point : LasPoint → ExtraValues → Decoded
finish_point p (failed e) = undecoded e
finish_point p (values vs) =
    if vec_is_finite p.source_position
    then decoded (record p { extra_bytes = vs })
    else undecoded non_finite_coordinate

unfoldable pub record_is_usable : LasHeader → Bytes → Bool
record_is_usable h r =
    las_header_is_valid h
    && is_supported_format_for_version h.version_minor h.point_format
    && leb (minimum_record_length h.point_format) h.point_record_length
    && leb h.point_record_length (length r)

module _ (coordinate : ℕ → ℕ → ℕ → ℕ) where
  -- The fields that every format has in one place.
  unfoldable pub decode_base : LasHeader → Bytes → LasPoint
  decode_base h r = record {
    source_position = record {
      x = coordinate (read_little 4 r 0) h.scale.x h.offset.x;
      y = coordinate (read_little 4 r 4) h.scale.y h.offset.y;
      z = coordinate (read_little 4 r 8) h.scale.z h.offset.z;
    };
    intensity = read_little 2 r 12;
    return_number = read_little 1 r 14 % 16;
    number_of_returns = read_little 1 r 14 / 16 % 16;
    classification = 0;
    classification_flags = 0;
    scanner_channel = 0;
    scan_direction_flag = 0;
    edge_of_flight_line = 0;
    user_data = 0;
    scan_angle = pos 0;
    point_source_id = 0;
    red = 0;
    green = 0;
    blue = 0;
    nir = 0;
    gps_time = 0;
    extra_bytes = [];
    waveform = no_waveform;
    has_color = false;
    has_gps_time = false;
    has_waveform = false;
  }

  unfoldable pub decode_fields : LasHeader → Bytes → LasPoint
  decode_fields h r = decode_waveform h.point_format r (
      if leb 6 h.point_format
      then decode_modern h.point_format r (decode_base h r)
      else decode_legacy h.point_format r (decode_base h r))

  -- `DecodePoint`; the descriptors are the header's.
  unfoldable pub decode_point :
      (ℕ → ℕ → ℕ) → (ℕ → ℕ → ℕ → ℕ) → LasHeader → List ExtraBytesDescriptor → Bytes → Decoded
  decode_point to_double affine h descriptors r =
      if record_is_usable h r
      then finish_point (decode_fields h r)
          (decode_extras to_double affine descriptors r (minimum_record_length h.point_format) [])
      else undecoded invalid_record
