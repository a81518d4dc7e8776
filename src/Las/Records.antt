-- ===== src/Las/Records.antt =====
-- `ReadRecords` of LasFormat.cpp: the variable-length records behind the header, or the extended ones
-- behind the points.
pub mod RoundTrip
pub mod Within
use usd_pointcloud_plugins.Prelude.{
  ℕ, zero, suc, ◌+◌, ◌-◌, ◌≤◌, ◌≡◌, refl, Bool, true, false, not, if◌then◌else◌, leb, List, [], ◌∷◌,
  Bytes, length, take, drop, String, Option, none, some, arith, sum, map,
}
use usd_pointcloud_plugins.Las.Bytes.{has, read_little, read_text}

pub record VariableLengthRecord : Type 0 where
  pub user_id : Bytes
  pub record_id : ℕ
  pub description : Bytes
  pub data_bytes : Bytes
  pub is_extended : Bool

abbrev pub record_header_length : Bool → ℕ
record_header_length extended = if extended then 60 else 54

unfoldable pub data_length : Bytes → ℕ → Bool → ℕ
data_length bytes offset extended =
    if extended then read_little 8 bytes (offset + 20) else read_little 2 bytes (offset + 20)

unfoldable pub record_at : Bytes → ℕ → Bool → VariableLengthRecord
record_at bytes offset extended = record {
  user_id = read_text bytes (offset + 2) 16;
  record_id = read_little 2 bytes (offset + 18);
  description = read_text bytes (offset + (if extended then 28 else 22)) 32;
  data_bytes =
      take (data_length bytes offset extended)
        (drop (offset + record_header_length extended) bytes);
  is_extended = extended;
}

-- The records that were read, and the error that the loop stopped with, or none.
unfoldable pub read_records : Bytes → ℕ → ℕ → Bool → List VariableLengthRecord × Option String
read_records bytes offset zero extended = ([], none)
read_records bytes offset (suc count) extended =
    let start = offset + record_header_length extended in
    let size = data_length bytes offset extended in
    let later = read_records bytes (start + size) count extended in
    if not (has bytes offset (record_header_length extended))
    then ([], some "LAS variable-length record header is truncated")
    else (if not (leb size (length bytes - start))
        then ([], some "LAS variable-length record data is truncated")
        else (record_at bytes offset extended ∷ later.0, later.1))

-- The bytes that the records take up.
abbrev pub records_size : Bool → List VariableLengthRecord → ℕ
records_size extended [] = 0
records_size extended (r ∷ rs) =
    record_header_length extended + length r.data_bytes + records_size extended rs
