-- ===== src/Las/Header/Accepted.antt =====
-- Which bytes `InspectHeader` accepts, and the header it makes of them.
use usd_pointcloud_plugins.Prelude.{
  ℕ, ◌+◌, ◌-◌, ◌≤◌, ◌<◌, ◌≡◌, refl, ap, ◌∙◌, Bool, true, false, not, ◌&&◌, ◌||◌, if◌then◌else◌, ltb,
  leb, ◌==◌, Bytes, length, take, String, Option, none, some, Bool-cases, inl, inr, arith, bit_and,
  bytes_eq,
}
use usd_pointcloud_plugins.Core.Float64.{is_finite, eq_f64, zero_bits}
use usd_pointcloud_plugins.Core.Bounds.{bounds_is_valid}
use usd_pointcloud_plugins.Las.Bytes.{has, read_little}
use usd_pointcloud_plugins.Las.Format.{
  is_supported_format, is_supported_format_for_version, minimum_header_size, minimum_record_length,
}
use usd_pointcloud_plugins.Las.Header.{
  LasHeader, Inspection, accepted, refused, refuse_when, inspect_extended, las_header_is_valid,
  inspect_values, inspect_count, inspect_version, inspect_fixed, inspect_header, las_signature,
}

abbrev pub accepted_header : Inspection → Option LasHeader
accepted_header (accepted h) = some h
accepted_header (refused h m) = none

abbrev pub header_if : Bool → LasHeader → Option LasHeader
header_if b h = if b then some h else none

-- The public header block: each field at its place in the bytes. The counts of version 1.4 stand behind
-- those of the older versions.
unfoldable pub header_in : Bytes → LasHeader
header_in bytes =
    let f = read_little 8 bytes in
    let minor = read_little 1 bytes 25 in
    record {
      version_major = read_little 1 bytes 24;
      version_minor = minor;
      header_size = read_little 2 bytes 94;
      point_data_offset = read_little 4 bytes 96;
      point_format = bit_and (read_little 1 bytes 104) 0x3f;
      point_record_length = read_little 2 bytes 105;
      point_count = if minor == 4 then f 247 else read_little 4 bytes 107;
      scale = record { x = f 131; y = f 139; z = f 147 };
      offset = record { x = f 155; y = f 163; z = f 171 };
      bounds = record {
        minimum = record { x = f 187; y = f 203; z = f 219 };
        maximum = record { x = f 179; y = f 195; z = f 211 };
      };
      variable_length_record_count = read_little 4 bytes 100;
      first_extended_offset = if minor == 4 then f 235 else 0;
      extended_count = if minor == 4 then read_little 4 bytes 243 else 0;
    }

-- The last point format and the size of the header of LAS 1.2, 1.3 and 1.4.
abbrev pub last_format : ℕ → ℕ
last_format minor = if minor == 2 then 3 else (if minor == 3 then 5 else 10)

abbrev pub header_block : ℕ → ℕ
header_block minor = if minor == 2 then 227 else (if minor == 3 then 235 else 375)

-- The bytes of a point: those of every format, the time of 1, 3, 4 and 5, the colours of 2, 3, 5, 7, 8 and
-- 10, the near infrared of 8 and 10, and the wave packet of 4, 5, 9 and 10.
unfoldable pub record_block : ℕ → ℕ
record_block format =
    (if ltb format 6 then 20 else 30)
    + (if format == 1 || format == 3 || format == 4 || format == 5 then 8 else 0)
    + (if format == 2 || format == 3 || format == 5 || format == 7 || format == 8 || format == 10
        then 6
        else 0)
    + (if format == 8 || format == 10 then 2 else 0)
    + (if format == 4 || format == 5 || format == 9 || format == 10 then 29 else 0)

abbrev pub is_scale : ℕ → Bool
is_scale d = is_finite d && not (eq_f64 d zero_bits)

abbrev pub values_hold : LasHeader → Bool
values_hold h =
    is_scale h.scale.x && is_scale h.scale.y && is_scale h.scale.z && bounds_is_valid h.bounds

unfoldable pub is_las : Bytes → Bool
is_las bytes =
    let h = header_in bytes in
    bytes_eq (take 4 bytes) las_signature
    && not (bit_and (read_little 1 bytes 104) 0xc0 == 0xc0)
    && (h.version_major == 1 && leb 2 h.version_minor && leb h.version_minor 4)
    && leb h.point_format (last_format h.version_minor)
    && leb (header_block h.version_minor) h.header_size
    && leb h.header_size h.point_data_offset
    && leb h.header_size (length bytes)
    && leb (record_block h.point_format) h.point_record_length
    && values_hold h

passing :
    (bad : Bool) (h : LasHeader) (m : String) (rest : Inspection) (b : Bool) (r : LasHeader)
    → accepted_header rest ≡ header_if b r
    → accepted_header (refuse_when bad h m rest) ≡ header_if (not bad && b) r
unfolding refuse_when
passing true h m rest b r e = refl
passing false h m rest b r e = e

-- The header with the values that the later steps read.
abbrev filled : Bytes → LasHeader → LasHeader
filled bytes h =
    let f = read_little 8 bytes in
    record h {
      point_count = if h.version_minor == 4 then f 247 else read_little 4 bytes 107;
      first_extended_offset = if h.version_minor == 4 then f 235 else h.first_extended_offset;
      extended_count = if h.version_minor == 4 then read_little 4 bytes 243 else h.extended_count;
      scale = record { x = f 131; y = f 139; z = f 147 };
      offset = record { x = f 155; y = f 163; z = f 171 };
      bounds = record {
        minimum = record { x = f 187; y = f 203; z = f 219 };
        maximum = record { x = f 179; y = f 195; z = f 211 };
      };
    }

abbrev last_guards : LasHeader → Bool
last_guards h =
    not (not (las_header_is_valid h))
    && (not (ltb h.point_record_length (minimum_record_length h.point_format)) && true)

inspect_count_lem :
    (bytes : Bytes) (h : LasHeader)
    → accepted_header (inspect_count bytes h)
      ≡ header_if
          ((not (h.version_minor == 4) || not (not (has bytes 247 8)))
            && last_guards (filled bytes h))
          (filled bytes h)
unfolding inspect_count inspect_extended inspect_values
inspect_count_lem bytes h = elim (Bool-cases (h.version_minor == 4)) [
  | inl four ↦ rw four (
      passing (not (has bytes 247 8)) _ _ _ _ _ (passing _ _ _ _ _ _ (passing _ _ _ _ true _ refl)))
  | inr other ↦ rw other (passing _ _ _ _ _ _ (passing _ _ _ _ true _ refl))
]

abbrev guards : Bytes → Bool
guards bytes =
    let h = header_in bytes in
    not (not (has bytes 0 227) || not (bytes_eq (take 4 bytes) las_signature))
    && (not (bit_and (read_little 1 bytes 104) 0xc0 == 0xc0)
        && (not (not (h.version_major == 1) || ltb h.version_minor 2 || ltb 4 h.version_minor)
            && (not (not (is_supported_format_for_version h.version_minor h.point_format))
                && (not (
                      ltb h.header_size (minimum_header_size h.version_minor)
                      || ltb h.point_data_offset h.header_size
                      || not (has bytes 0 h.header_size))
                    && ((not (h.version_minor == 4) || not (not (has bytes 247 8)))
                        && last_guards h)))))

inspect_header_lem :
    (bytes : Bytes)
    → accepted_header (inspect_header bytes) ≡ header_if (guards bytes) (header_in bytes)
unfolding inspect_header inspect_fixed inspect_version header_in
inspect_header_lem bytes = passing _ _ _ _ _ _ (
    passing _ _ _ _ _ _
      (passing _ _ _ _ _ _ (passing _ _ _ _ _ _ (passing _ _ _ _ _ _ (inspect_count_lem bytes _)))))

-- The formats of a version are those up to its last one.
formats_agree :
    (minor format : ℕ)
    → 2 ≤ minor
    → minor ≤ 4
    → is_supported_format_for_version minor format ≡ leb format (last_format minor)
unfolding is_supported_format_for_version is_supported_format
formats_agree minor format h k = ground arith

sizes_agree : (minor : ℕ) → 2 ≤ minor → minor ≤ 4 → minimum_header_size minor ≡ header_block minor
unfolding minimum_header_size
sizes_agree minor h k = ground arith

records_agree : (format : ℕ) → format ≤ 10 → minimum_record_length format ≡ record_block format
unfolding minimum_record_length record_block
records_agree format h = ground arith

record_not_empty : (format : ℕ) → 0 < record_block format
unfolding record_block
record_not_empty format = ground arith

-- The guards of `LasHeader::IsValid`, less those that the others imply.
values_agree :
    (h : LasHeader)
    → (not (not (las_header_is_valid h))
        && (not (ltb h.point_record_length (minimum_record_length h.point_format)) && true))
      ≡ ((h.version_major == 1 && leb 2 h.version_minor && leb h.version_minor 4)
          && (ltb 0 h.header_size && ltb 0 h.point_record_length)
          && leb (minimum_record_length h.point_format) h.point_record_length
          && values_hold h)
unfolding las_header_is_valid
values_agree h = ground arith

-- A header that reaches its size holds the fields of its version.
reach_agree :
    (sig flags values fmt : Bool)
    (major minor format size offset len reclen minlen minsize block : ℕ)
    → (2 ≤ minor → minor ≤ 4 → fmt ≡ leb format (last_format minor))
    → (2 ≤ minor → minor ≤ 4 → minsize ≡ header_block minor)
    → (format ≤ 10 → minlen ≡ block)
    → 0 < block
    → let version = major == 1 && leb 2 minor && leb minor 4 in
      (not (not (leb 0 len && leb 227 (len - 0)) || not sig)
        && (not flags
            && (not (not (major == 1) || ltb minor 2 || ltb 4 minor)
                && (not (not fmt)
                    && (not (
                          ltb size minsize
                          || ltb offset size
                          || not (leb 0 len && leb size (len - 0)))
                        && ((not (minor == 4) || not (not (leb 247 len && leb 8 (len - 247))))
                            && (version
                                && (ltb 0 size && ltb 0 reclen)
                                && leb minlen reclen
                                && values)))))))
      ≡ (sig
          && not flags
          && version
          && leb format (last_format minor)
          && leb (header_block minor) size
          && leb size offset
          && leb size len
          && leb block reclen
          && values)
reach_agree sig flags values fmt major minor format size offset len reclen minlen minsize block f g
      h k =
    elim (Bool-cases (leb 2 minor && leb minor 4)) [
      | inl e ↦
          (let f' = f (ground arith) (ground arith) in
            let g' = g (ground arith) (ground arith) in
            elim (Bool-cases (leb format 10)) [
              | inl small ↦ (let h' = h (ground arith) in ground arith)
              | inr large ↦ ground arith
            ])
      | inr e ↦ ground arith
    ]

guards_agree : (bytes : Bytes) → guards bytes ≡ is_las bytes
unfolding is_las has
guards_agree bytes =
    let h = header_in bytes in
    rw (values_agree h) (
      reach_agree _ _ (values_hold h) _ h.version_major h.version_minor h.point_format h.header_size
        h.point_data_offset (length bytes) h.point_record_length
        (minimum_record_length h.point_format) (minimum_header_size h.version_minor)
        (record_block h.point_format) (formats_agree h.version_minor h.point_format)
        (sizes_agree h.version_minor) (records_agree h.point_format)
        (record_not_empty h.point_format))

-- `InspectHeader` accepts bytes exactly when they have the signature, a version from 1.2 to 1.4, not both
-- compression flags, a point format up to the last one of that version, a header size that is at least the
-- block of that version and ends in the bytes and before the points, a record length that holds the fields
-- of the format, finite nonzero scales and valid bounds; and then the header has every field from its place
-- in the bytes, the counts of version 1.4 from behind the older ones.
pub inspect_header-is_las :
    (bytes : Bytes)
    → accepted_header (inspect_header bytes) ≡ header_if (is_las bytes) (header_in bytes)
inspect_header-is_las bytes =
    inspect_header_lem bytes ∙ ap (λ b. header_if b (header_in bytes)) (guards_agree bytes)
