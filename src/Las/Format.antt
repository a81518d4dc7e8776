-- ===== src/Las/Format.antt =====
-- The tables of LasFormat.cpp, and the layout of the extra bytes.
pub mod Layout
use usd_pointcloud_plugins.Prelude.{
  ℕ, ◌+◌, ◌-◌, ◌*◌, ◌%◌, ◌^◌, Bool, true, false, not, ◌&&◌, ◌||◌, if◌then◌else◌, ltb, leb, ◌==◌,
  List, [], ◌∷◌, Bytes, String, Option, none, some,
}
use usd_pointcloud_plugins.Core.Bounds.{Vec3d}

unfoldable pub is_supported_format : ℕ → Bool
is_supported_format format = leb format 5 || (leb 6 format && leb format 10)

unfoldable pub is_supported_format_for_version : ℕ → ℕ → Bool
is_supported_format_for_version version_minor format =
    if not (is_supported_format format)
    then false
    else (if format == 4 || format == 5
        then version_minor == 3 || version_minor == 4
        else ltb format 6 || version_minor == 4)

unfoldable pub minimum_header_size : ℕ → ℕ
minimum_header_size version_minor =
    if version_minor == 2
    then 227
    else (if version_minor == 3 then 235 else (if version_minor == 4 then 375 else 0))

unfoldable pub minimum_record_length : ℕ → ℕ
minimum_record_length format =
    if format == 0
    then 20
    else (if format == 1
        then 28
        else (if format == 2
            then 26
            else (if format == 3
                then 34
                else (if format == 4
                    then 57
                    else (if format == 5
                        then 63
                        else (if format == 6
                            then 30
                            else (if format == 7
                                then 36
                                else (if format == 8
                                    then 38
                                    else (if format == 9
                                        then 59
                                        else (if format == 10 then 67 else 0))))))))))

unfoldable pub scalar_type_size : ℕ → ℕ
scalar_type_size t =
    if t == 1 || t == 2
    then 1
    else (if t == 3 || t == 4
        then 2
        else (if t == 5 || t == 6 || t == 9
            then 4
            else (if t == 7 || t == 8 || t == 10 then 8 else 0)))

-- The tuple types 11 to 30 repeat the scalar types 1 to 10.
unfoldable pub scalar_type : ℕ → ℕ
scalar_type t = if leb 11 t && leb t 30 then (t - 1) % 10 + 1 else t

unfoldable pub extra_byte_scalar_size : ℕ → ℕ
extra_byte_scalar_size t = scalar_type_size (scalar_type t)

unfoldable pub extra_byte_component_count : ℕ → ℕ
extra_byte_component_count t =
    if leb 1 t && leb t 10
    then 1
    else (if leb 11 t && leb t 20 then 2 else (if leb 21 t && leb t 30 then 3 else 0))

pub record ExtraBytesDescriptor : Type 0 where
  pub data_type : ℕ
  pub options : ℕ
  pub name : Bytes
  pub no_data : Vec3d
  pub minimum : Vec3d
  pub maximum : Vec3d
  pub scale : Vec3d
  pub offset : Vec3d
  pub description : Bytes

abbrev pub size_max : ℕ
size_max = 2 ^ 64 - 1

-- What the loop over the descriptors gives: the size, or the error that it stops with.
pub data Sized : Type 0 where
  sized : ℕ → Sized
  stopped : String → Sized

unfoldable pub extra_bytes_size : ℕ → List ExtraBytesDescriptor → Sized
extra_bytes_size size [] = sized size
extra_bytes_size size (d ∷ descriptors) =
    let scalar = extra_byte_scalar_size d.data_type in
    let count = extra_byte_component_count d.data_type in
    let rest = extra_bytes_size (size + scalar * count) descriptors in
    if scalar == 0 || count == 0
    then stopped "unsupported LAS Extra Bytes data type"
    else (if ltb (size_max - scalar * count) size
        then stopped "LAS Extra Bytes layout is too large"
        else rest)

-- `ValidateExtraBytesLayout` on the header's point format, record length and descriptors: the error,
-- or none.
unfoldable pub check_sized : ℕ → ℕ → Sized → Option String
check_sized format record_length (stopped m) = some m
check_sized format record_length (sized size) =
    let base = minimum_record_length format in
    if ltb (size_max - size) base || not (record_length == base + size)
    then some "LAS point record length does not match Extra Bytes descriptors"
    else none

unfoldable pub validate_extra_bytes_layout : ℕ → ℕ → List ExtraBytesDescriptor → Option String
validate_extra_bytes_layout format record_length descriptors =
    check_sized format record_length (extra_bytes_size 0 descriptors)
