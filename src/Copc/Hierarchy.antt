-- ===== src/Copc/Hierarchy.antt =====
-- `CopcReader::ReadHierarchy` of Copc.cpp. The file is read through `RandomAccessSource::Read`, an
-- interface that the caller implements: it is the parameter `read`, which gives the bytes or the
-- diagnostics that it adds. The recursion on pages runs on fuel.
pub mod Sound
pub mod Fuel
use usd_pointcloud_plugins.Prelude.{
  ℕ, zero, suc, ◌+◌, ◌-◌, ◌*◌, ◌/◌, ◌%◌, ◌^◌, Bool, true, false, not, ◌&&◌, ◌||◌, if◌then◌else◌,
  ltb, leb, ◌==◌, any_of, List, [], ◌∷◌, ◌++◌, Bytes, length, Option, none, some,
}
use usd_pointcloud_plugins.Prelude.Int.{ℤ, unsigned, pos_part}
use usd_pointcloud_plugins.Core.Diagnostic.{
  Diagnostic, DiagnosticCode, an_error, error_at, Checked, ok, err,
}
use usd_pointcloud_plugins.Las.Header.{LasHeader}
use usd_pointcloud_plugins.Copc.Entry.{
  Entry, CopcHeader, CopcInfo, copc_header_is_valid, hierarchy_entry_size, is_file_range_valid,
  entry_is_valid, is_hierarchy_page, is_point_data, entry_at,
}

-- The variables that the lambda `readPage` shares with its calls.
pub record Walk : Type 0 where
  pub visited_pages : List ℕ
  pub total_point_count : ℕ
  pub entries : List Entry

pub data PageResult : Type 0 where
  walked : Walk → PageResult
  failed : List Diagnostic → PageResult
  out_of_fuel : PageResult

abbrev pub ReadPage : Type 0
ReadPage = ℕ → ℕ → Walk → PageResult

unfoldable pub and_then : PageResult → (Walk → PageResult) → PageResult
and_then (walked w) k = k w
and_then (failed ds) k = failed ds
and_then out_of_fuel k = out_of_fuel

abbrev pub fails_at : DiagnosticCode → Prim.Native.String.String → ℕ → PageResult
fails_at c m offset = failed (error_at c m (some offset) none ∷ [])

-- `if (bad) { AddDiagnostic(...); return false; }` and the code behind it.
unfoldable pub unless_at :
    Bool → DiagnosticCode → Prim.Native.String.String → ℕ → PageResult → PageResult
unless_at true c m offset rest = fails_at c m offset
unless_at false c m offset rest = rest

abbrev pub push_entry : Walk → Entry → Walk
push_entry w e = record w { entries = w.entries ++ e ∷ [] }

-- The page that an entry names; the entry is kept before the page is read.
unfoldable pub child_page : CopcHeader → ReadPage → ℕ → Entry → Walk → PageResult
child_page header read_page at e w =
    unless_at
      (not (pos_part e.byte_size % hierarchy_entry_size == 0)
        || not (is_file_range_valid header.file_size e.offset (unsigned 64 e.byte_size)))
      DiagnosticCode.invalid_offset "COPC child hierarchy page range is invalid" at
      (read_page e.offset (unsigned 64 e.byte_size) (push_entry w e))

-- The subtraction has 64 bits.
unfoldable pub count_points : CopcHeader → ℕ → Entry → Walk → PageResult
count_points header at e w =
    let count = unsigned 64 e.point_count in
    unless_at (ltb ((header.las.point_count + 2 ^ 64 - w.total_point_count) % 2 ^ 64) count)
      DiagnosticCode.decode_failure "COPC hierarchy point count exceeds the LAS header count" at
      (walked
        (push_entry (record w { total_point_count = (w.total_point_count + count) % 2 ^ 64 }) e))

unfoldable pub point_entry : CopcHeader → ℕ → Entry → Walk → PageResult
point_entry header at e w =
    unless_at
      (is_point_data e
        && not (is_file_range_valid header.file_size e.offset (unsigned 64 e.byte_size)))
      DiagnosticCode.invalid_offset "COPC point data range is invalid" at
      (if is_point_data e then count_points header at e w else walked (push_entry w e))

-- The body of the loop over a page.
unfoldable pub take_entry : CopcHeader → ReadPage → ℕ → Entry → Walk → PageResult
take_entry header read_page at e w =
    unless_at (not (entry_is_valid e)) DiagnosticCode.decode_failure
      "COPC hierarchy entry is invalid" at
      (if is_hierarchy_page e
        then child_page header read_page at e w
        else point_entry header at e w)

-- The loop, with `n` entries left from the place `k` of the page.
unfoldable pub take_entries : CopcHeader → ReadPage → ℕ → Bytes → ℕ → ℕ → Walk → PageResult
take_entries header read_page offset page k zero w = walked w
take_entries header read_page offset page k (suc n) w =
    and_then (take_entry header read_page (offset + k) (entry_at page k) w)
      (take_entries header read_page offset page (k + hierarchy_entry_size) n)

-- `ReadFileRange`
unfoldable pub read_file_range : (ℕ → ℕ → Checked Bytes) → ℕ → ℕ → ℕ → Checked Bytes
read_file_range read file_size offset size =
    if not (is_file_range_valid file_size offset size)
    then err (
        error_at DiagnosticCode.invalid_offset "COPC file range is outside the file" (some offset)
          none
        ∷ [])
    else read offset size

unfoldable pub page_read : CopcHeader → ReadPage → ℕ → Walk → Checked Bytes → PageResult
page_read header read_page offset w (err ds) = failed ds
page_read header read_page offset w (ok page) =
    take_entries header read_page offset page 0 ((length page + 31) / hierarchy_entry_size) w

unfoldable pub read_page : CopcHeader → (ℕ → ℕ → Checked Bytes) → ℕ → ReadPage
read_page header read zero offset size w = out_of_fuel
read_page header read (suc fuel) offset size w =
    let rest = read_page header read fuel in
    unless_at
      (size == 0
        || not (size % hierarchy_entry_size == 0)
        || not (is_file_range_valid header.file_size offset size))
      DiagnosticCode.invalid_offset "COPC hierarchy page range is invalid" offset
      (unless_at (any_of (λ p. p == offset) w.visited_pages) DiagnosticCode.decode_failure
        "COPC hierarchy contains a repeated page" offset
        (page_read header rest offset (record w { visited_pages = offset ∷ w.visited_pages })
          (read_file_range read header.file_size offset size)))

pub data HierarchyResult : Type 0 where
  hierarchy : List Entry → HierarchyResult
  refused : List Diagnostic → HierarchyResult
  no_fuel : HierarchyResult

abbrev pub start : Walk
start = record { visited_pages = []; total_point_count = 0; entries = [] }

unfoldable pub check_total : CopcHeader → PageResult → HierarchyResult
check_total header out_of_fuel = no_fuel
check_total header (failed ds) = refused ds
check_total header (walked w) =
    if not (w.total_point_count == header.las.point_count)
    then refused (
        an_error DiagnosticCode.decode_failure
          "COPC hierarchy point count does not match the LAS header count"
        ∷ [])
    else hierarchy w.entries

unfoldable pub read_hierarchy : CopcHeader → (ℕ → ℕ → Checked Bytes) → ℕ → HierarchyResult
read_hierarchy header read fuel =
    if not (copc_header_is_valid header)
    then refused (an_error DiagnosticCode.invalid_offset "COPC header is not valid" ∷ [])
    else check_total header (
        read_page header read fuel header.info.root_hierarchy_offset header.info.root_hierarchy_size
          start)
