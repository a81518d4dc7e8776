-- ===== src/Core/Diagnostic.antt =====
-- libs/usd-geo-core/include/usdgeo/Diagnostic.h: what an operation reports.
use usd_pointcloud_plugins.Prelude.{ℕ, String, Option, none, List, [], ◌∷◌, Bool, true, false}

pub data Severity : Type 0 where
  warning error : Severity

pub data DiagnosticCode : Type 0 where
  invalid_signature unsupported_version unsupported_point_format truncated_header : DiagnosticCode
  invalid_offset invalid_record_length truncated_record invalid_crs : DiagnosticCode
  conflicting_crs unsupported_extra_bytes_type missing_waveform_data : DiagnosticCode
  non_finite_coordinate non_finite_extra_bytes decode_failure source_open_failed : DiagnosticCode
  source_size_unavailable unknown_format_argument unsupported_format_argument : DiagnosticCode
  invalid_format_argument conflicting_format_arguments invalid_point_tile_id : DiagnosticCode
  invalid_point_source_range invalid_lod_item invalid_lod_hierarchy : DiagnosticCode
  invalid_point_tile spool_workspace_failed spool_write_failed spool_incomplete : DiagnosticCode
  open_file_budget_exhausted payload_commit_failed : DiagnosticCode

unfoldable pub is_working_storage_failure : DiagnosticCode → Bool
is_working_storage_failure DiagnosticCode.spool_workspace_failed = true
is_working_storage_failure DiagnosticCode.spool_write_failed = true
is_working_storage_failure DiagnosticCode.spool_incomplete = true
is_working_storage_failure DiagnosticCode.open_file_budget_exhausted = true
is_working_storage_failure DiagnosticCode.payload_commit_failed = true
is_working_storage_failure _ = false

pub record Diagnostic : Type 0 where
  pub code : DiagnosticCode
  pub severity : Severity
  pub message : String
  pub byte_offset : Option ℕ
  pub point_index : Option ℕ

-- The first error decides; warnings before it are passed over.
unfoldable pub stopped_by_working_storage_failure : List Diagnostic → Bool
stopped_by_working_storage_failure [] = false
stopped_by_working_storage_failure (d ∷ ds) = elim d.severity [
  | Severity.warning ↦ stopped_by_working_storage_failure ds
  | Severity.error ↦ is_working_storage_failure d.code
]

-- The entries that the code makes: an error, with no position or at a byte or a point.
abbrev pub error_at : DiagnosticCode → String → Option ℕ → Option ℕ → Diagnostic
error_at c m b p = record {
  code = c;
  severity = Severity.error;
  message = m;
  byte_offset = b;
  point_index = p;
}

abbrev pub an_error : DiagnosticCode → String → Diagnostic
an_error c m = error_at c m none none

-- A message with a text behind it.
abbrev pub text : String → String → String
text a b = Prim.Native.String.◌++◌ a b

-- What a fallible operation gives: its outputs, or the diagnostics that it adds when it fails.
pub data Checked {ℓ} (A : Type ℓ) : Type ℓ where
  ok : A → Checked A
  err : List Diagnostic → Checked A
