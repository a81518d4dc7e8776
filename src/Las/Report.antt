-- ===== src/Las/Report.antt =====
-- The errors of the header and of the records as diagnostics: `CodeForError`, `AddErrorDiagnostic` and the
-- overloads of `InspectHeader` and `InspectRecords` that report.
use text.Mathlib.Text.{◌==◌}
use usd_pointcloud_plugins.Prelude.{
  ℕ, String, Bool, true, false, ◌||◌, if◌then◌else◌, List, [], ◌∷◌, Option, none, some, Bytes,
}
use usd_pointcloud_plugins.Core.Diagnostic.{Diagnostic, DiagnosticCode, an_error, error_at}
use usd_pointcloud_plugins.Las.Header.{LasHeader, Inspection, accepted, refused, inspect_header}
use usd_pointcloud_plugins.Las.Records.{VariableLengthRecord, read_records}

unfoldable code_for_error : String → DiagnosticCode
code_for_error e =
    if e == "LAS header is missing or has an invalid signature"
    then DiagnosticCode.invalid_signature
    else (if e == "unsupported LAS version"
        then DiagnosticCode.unsupported_version
        else (if e == "unsupported LAS point format"
            then DiagnosticCode.unsupported_point_format
            else (if e == "LAS header offsets are invalid"
                  || e == "LAS extended variable-length record offset is invalid"
                then DiagnosticCode.invalid_offset
                else (if e == "LAS point record length is too small for its format"
                    then DiagnosticCode.invalid_record_length
                    else (if e == "LAS variable-length record header is truncated"
                          || e == "LAS 1.4 extended point count is missing"
                        then DiagnosticCode.truncated_header
                        else (if e == "LAS variable-length record data is truncated"
                            then DiagnosticCode.truncated_record
                            else (if e == "LAS GeoTIFF key directory is truncated"
                                  || e == "LAS GeoTIFF double parameters are truncated"
                                then DiagnosticCode.invalid_crs
                                else (if e == "LAS GeoTIFF CRS keys conflict"
                                      || e == "LAS CRS definitions conflict"
                                    then DiagnosticCode.conflicting_crs
                                    else (if e == "LAS Extra Bytes VLR has an invalid length"
                                        then DiagnosticCode.invalid_record_length
                                        else (if e
                                              == "LAS point record length does not match Extra Bytes descriptors"
                                            then DiagnosticCode.invalid_record_length
                                            else (if e == "unsupported LAS Extra Bytes data type"
                                                then DiagnosticCode.unsupported_extra_bytes_type
                                                else (if e
                                                      == "decoded LAS point contains a non-finite coordinate"
                                                    then DiagnosticCode.non_finite_coordinate
                                                    else (if e
                                                          == "decoded LAS point contains a non-finite Extra Bytes value"
                                                        then DiagnosticCode.non_finite_extra_bytes
                                                        else DiagnosticCode.decode_failure)))))))))))))

unfoldable add_error_diagnostic : String → List Diagnostic
add_error_diagnostic e = an_error (code_for_error e) e ∷ []

-- The header as far as it was read, what the function returns, and the diagnostics.
unfoldable report_header : Inspection → LasHeader × Bool × List Diagnostic
report_header (accepted h) = (h, true, [])
report_header (refused h e) = (h, false, add_error_diagnostic e)

unfoldable inspect_header_reported : Bytes → LasHeader × Bool × List Diagnostic
inspect_header_reported bytes = report_header (inspect_header bytes)

-- The first diagnostic gets the offset at which the records begin.
unfoldable report_records :
    ℕ
    → List VariableLengthRecord × Option String
    → List VariableLengthRecord × Bool × List Diagnostic
report_records offset (records, none) = (records, true, [])
report_records offset (records, some e) =
    (records, false, error_at (code_for_error e) e (some offset) none ∷ [])

unfoldable inspect_records_reported :
    Bytes → ℕ → ℕ → Bool → List VariableLengthRecord × Bool × List Diagnostic
inspect_records_reported bytes offset count extended =
    report_records offset (read_records bytes offset count extended)
