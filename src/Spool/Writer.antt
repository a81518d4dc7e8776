-- ===== src/Spool/Writer.antt =====
-- `TileSpoolWriter` of libs/usd-pointcloud-tiling/src/Spool.cpp. An operation gives the new writer,
-- whether it returned true, and the diagnostics that it added.
pub mod Fields
pub mod Flush
pub mod Steps
pub mod Append
pub mod Run
use usd_pointcloud_plugins.Prelude.{
  ℕ, zero, suc, ◌+◌, ◌-◌, ◌%◌, ◌^◌, String, Bool, true, false, not, ◌&&◌, ◌||◌, if◌then◌else◌, leb,
  ◌==◌, List, [], ◌∷◌, ◌++◌, Bytes, length, Option, none, some, all_of, sum, map,
}
use usd_pointcloud_plugins.Prelude.Int.{unsigned}
use usd_pointcloud_plugins.Core.Bounds.{Vec3d}
use usd_pointcloud_plugins.Core.Diagnostic.{Diagnostic, DiagnosticCode, an_error, text}
use usd_pointcloud_plugins.Core.TileId.{TileId, tile_is_valid}
use usd_pointcloud_plugins.Cloud.Attribute.{PointAttribute}
use usd_pointcloud_plugins.Spool.Stream.{OutStream, write_bytes, write_number, flush_stream}
use usd_pointcloud_plugins.Spool.Schema.{
  SpoolSchema, SpoolAttributeValue, SpoolPoint, value_index, type_code, record_size,
  schema_is_valid, write_attribute,
}

-- "USDGSP01" and "USDGEND1".
abbrev pub spool_header : Bytes
spool_header = 0x55 ∷ 0x53 ∷ 0x44 ∷ 0x47 ∷ 0x53 ∷ 0x50 ∷ 0x30 ∷ 0x31 ∷ []

abbrev pub spool_footer : Bytes
spool_footer = 0x55 ∷ 0x53 ∷ 0x44 ∷ 0x47 ∷ 0x45 ∷ 0x4e ∷ 0x44 ∷ 0x31 ∷ []

-- `TileSpoolWriter::Impl`. `bytes_written` is the counter of the caller's `SpoolIoStats`, if it gave
-- one.
pub record WriterImpl : Type 0 where
  pub stream : OutStream
  pub schema : SpoolSchema
  pub memory_limit : ℕ
  pub buffered : ℕ
  pub point_count : ℕ
  pub points : List SpoolPoint
  pub bytes_written : Option ℕ
  pub is_open : Bool

-- The writer holds an implementation once `Open` got a stream.
abbrev pub Writer : Type 0
Writer = Option WriterImpl

pub record Outcome : Type 0 where
  pub writer : Writer
  pub result : Bool
  pub diagnostics : List Diagnostic

abbrev pub fails : WriterImpl → DiagnosticCode → String → Outcome
fails w c m = record { writer = some w; result = false; diagnostics = an_error c m ∷ [] }

abbrev pub succeeds : WriterImpl → Outcome
succeeds w = record { writer = some w; result = true; diagnostics = [] }

-- What opening the file gives: a stream, or a refusal, with whether the process ran out of handles.
pub data OpenResult (S : Type 0) : Type 0 where
  opened : S → OpenResult S
  refused : Bool → OpenResult S

-- The caller's counter, if there is one, moved by `k` bytes.
abbrev pub moved_stats : Option ℕ → ℕ → Option ℕ
moved_stats none k = none
moved_stats (some n) k = some (n + k)

-- The counter moves by what the stream's position moved; a failed stream has no position.
abbrev pub count_written : Option ℕ → OutStream → OutStream → Option ℕ
count_written stats before after =
    if before.good && after.good
    then moved_stats stats (length after.content - length before.content)
    else stats

pub write_string : Bytes → OutStream → OutStream
write_string value s =
    if leb (length value) 0xffff_ffff
    then write_bytes (write_number 4 (length value) s) value
    else s

-- The loop over the attributes: the stream, and whether every part was written.
pub write_schema : List PointAttribute → OutStream → OutStream × Bool
write_schema [] s = (s, true)
write_schema (a ∷ rest) s =
    let s' = write_number 1 (type_code a.type) (write_string a.name s) in
    let later = write_schema rest s' in
    if not (leb (length a.name) 0xffff_ffff)
    then (s, false)
    else (if not s'.good then (s', false) else later)

pub write_preamble : TileId → SpoolSchema → OutStream → OutStream
write_preamble tile schema s = write_number 4 (length schema.attributes % 2 ^ 32) (
    write_number 8 (unsigned 64 tile.y) (
      write_number 8 (unsigned 64 tile.x) (
        write_number 4 (unsigned 32 tile.level) (
          write_number 1 (schema.coordinate_space % 2 ^ 8)
            (write_number 4 schema.version (write_bytes s spool_header))))))

abbrev pub count_position : Option ℕ → OutStream → Option ℕ
count_position stats s = if s.good then moved_stats stats (length s.content) else stats

pub start_spool : WriterImpl → TileId → Outcome
start_spool w tile =
    let s = write_preamble tile w.schema w.stream in
    let r = write_schema w.schema.attributes s in
    if not s.good
    then fails (record w { stream = s }) DiagnosticCode.spool_write_failed
        "unable to write tile spool header"
    else (if not r.1
        then fails (record w { stream = r.0 }) DiagnosticCode.spool_write_failed
            "unable to write tile spool schema"
        else succeeds
            (record w { stream = r.0; bytes_written = count_position w.bytes_written r.0 }))

pub open_stream : String → TileId → SpoolSchema → ℕ → OpenResult OutStream → Option ℕ → Outcome
open_stream path tile schema memory_limit (refused exhausted) stats = record {
  writer = none;
  result = false;
  diagnostics =
      (if exhausted
        then an_error DiagnosticCode.open_file_budget_exhausted
            (text "unable to create tile spool, the process has no file handles left: " path)
        else an_error DiagnosticCode.spool_write_failed (text "unable to create tile spool: " path))
      ∷ [];
}
open_stream path tile schema memory_limit (opened s) stats =
    start_spool
      (record {
        stream = s;
        schema = schema;
        memory_limit = memory_limit;
        buffered = 0;
        point_count = 0;
        points = [];
        bytes_written = stats;
        is_open = true;
      })
      tile

pub writer_open :
    Writer → String → TileId → SpoolSchema → ℕ → OpenResult OutStream → Option ℕ → Outcome
writer_open w path tile schema memory_limit file stats =
    if not (tile_is_valid tile) || not (schema_is_valid schema) || memory_limit == 0
    then record {
      writer = w;
      result = false;
      diagnostics =
          an_error DiagnosticCode.invalid_point_tile "invalid tile spool configuration" ∷ [];
    }
    else open_stream path tile schema memory_limit file stats

pub write_vec : Vec3d → OutStream → OutStream
write_vec v s = write_number 8 v.z (write_number 8 v.y (write_number 8 v.x s))

-- The attributes of one point, against the schema's; `none` where a value has another type or the
-- stream fails.
pub write_attributes : List PointAttribute → List SpoolAttributeValue → OutStream → OutStream × Bool
write_attributes (a ∷ types) (v ∷ values) s = elim (write_attribute a.type v s) [
  | none ↦ (s, false)
  | some s' ↦ if s'.good then write_attributes types values s' else (s', false)
]
write_attributes types values s = (s, true)

-- The loop of `Flush`: the stream, the points counted, and the message it stopped with.
pub flush_points :
    List PointAttribute → List SpoolPoint → OutStream → ℕ → OutStream × ℕ × Option String
flush_points types [] s n = (s, n, none)
flush_points types (p ∷ points) s n =
    let s1 = write_vec p.stage_position (write_vec p.source_position s) in
    let r = write_attributes types p.attributes s1 in
    let later = flush_points types points r.0 (n + 1) in
    if not s1.good
    then (s1, n, some "unable to write tile spool point")
    else (if r.1 then later else (r.0, n, some "unable to write tile spool attribute"))

pub flushed : WriterImpl → OutStream × ℕ × Option String → Outcome
flushed w (s, n, some m) =
    fails (record w { stream = s; point_count = n }) DiagnosticCode.spool_write_failed m
flushed w (s, n, none) =
    let s' = flush_stream s in
    let w' = record w { stream = s'; point_count = n; points = []; buffered = 0 } in
    if not s'.good
    then fails w' DiagnosticCode.spool_write_failed "unable to flush tile spool"
    else succeeds (record w' { bytes_written = count_written w.bytes_written w.stream s' })

pub flush_open : WriterImpl → Outcome
flush_open w = flushed w (flush_points w.schema.attributes w.points w.stream w.point_count)

pub cannot_flush : Writer → Outcome
cannot_flush w = record {
  writer = w;
  result = false;
  diagnostics = an_error DiagnosticCode.spool_write_failed "unable to flush tile spool" ∷ [];
}

pub writer_flush : Writer → Outcome
writer_flush none = cannot_flush none
writer_flush (some w) = if w.is_open then flush_open w else cannot_flush (some w)

-- Every value of the point has the type that the schema names at its place.
pub types_match : List SpoolAttributeValue → List PointAttribute → Bool
types_match (v ∷ values) (a ∷ types) =
    (value_index v == type_code a.type) && types_match values types
types_match values types = true

pub mismatch : Writer → String → Outcome
mismatch w m = record {
  writer = w;
  result = false;
  diagnostics = an_error DiagnosticCode.invalid_point_tile m ∷ [];
}

pub append_open : WriterImpl → SpoolPoint → Outcome
append_open w p =
    let w' = record w {
      buffered = w.buffered + record_size w.schema.attributes;
      points = w.points ++ p ∷ [];
    } in
    if not (w.is_open && length p.attributes == length w.schema.attributes)
    then mismatch (some w) "point does not match tile spool schema"
    else (if not (types_match p.attributes w.schema.attributes)
        then mismatch (some w) "point attribute type does not match tile spool schema"
        else (if leb w'.memory_limit w'.buffered then writer_flush (some w') else succeeds w'))

pub writer_append : Writer → SpoolPoint → Outcome
writer_append none p = mismatch none "point does not match tile spool schema"
writer_append (some w) p = append_open w p

-- The footer, after a flush that returned true.
pub finish : Writer → Outcome
finish none = record { writer = none; result = true; diagnostics = [] }
finish (some w) =
    let s = flush_stream (write_number 8 w.point_count (write_bytes w.stream spool_footer)) in
    if not s.good
    then fails (record w { stream = s }) DiagnosticCode.spool_write_failed
        "unable to finalize tile spool"
    else succeeds (record w {
      stream = s;
      bytes_written = count_written w.bytes_written w.stream s;
      is_open = false;
    })

pub close_open : Outcome → Outcome
close_open flushed = if flushed.result then finish flushed.writer else flushed

pub writer_close : Writer → Outcome
writer_close none = record { writer = none; result = true; diagnostics = [] }
writer_close (some w) =
    if w.is_open
    then close_open (writer_flush (some w))
    else record { writer = some w; result = true; diagnostics = [] }

pub buffered_bytes : Writer → ℕ
buffered_bytes none = 0
buffered_bytes (some w) = w.buffered
