-- ===== src/Spool/Reader.antt =====
-- `TileSpoolReader` of libs/usd-pointcloud-tiling/src/Spool.cpp.
pub mod Fields
pub mod Sizes
pub mod Loop
pub mod Open
use usd_pointcloud_plugins.Prelude.{
  ℕ, zero, suc, ◌+◌, ◌-◌, ◌%◌, String, Bool, true, false, not, ◌&&◌, ◌||◌, if◌then◌else◌, ltb, leb,
  ◌==◌, List, [], ◌∷◌, ◌++◌, Bytes, bytes_eq, length, Option, none, some,
}
use usd_pointcloud_plugins.Prelude.Int.{ℤ, signed}
use usd_pointcloud_plugins.Core.Bounds.{Vec3d}
use usd_pointcloud_plugins.Core.Diagnostic.{Diagnostic, DiagnosticCode, an_error, text}
use usd_pointcloud_plugins.Core.TileId.{TileId, tile_is_valid}
use usd_pointcloud_plugins.Cloud.Attribute.{
  PointAttribute, PointAttributeType, int32, int16, uint8, uint16, uint32, uint64, float32, float64,
  float64_vec2, float64_vec3,
}
use usd_pointcloud_plugins.Spool.Stream.{
  InStream, Parse, ◌>>=◌, ◌>>◌, pure, require, read_bytes, read_number, file_end,
}
use usd_pointcloud_plugins.Spool.Schema.{
  SpoolSchema, SpoolAttributeValue, SpoolPoint, record_size, schema_is_valid, read_attribute,
}
use usd_pointcloud_plugins.Spool.Writer.{
  spool_header, spool_footer, OpenResult, opened, refused, moved_stats,
}

-- `TileSpoolReader::Impl`. `bytes_read` is the counter of the caller's `SpoolIoStats`, if any.
pub record ReaderImpl : Type 0 where
  pub stream : InStream
  pub schema : SpoolSchema
  pub point_count : ℕ
  pub points_read : ℕ
  pub data_end : ℕ
  pub record_size : ℕ
  pub bytes_read : Option ℕ
  pub complete : Bool

abbrev pub Reader : Type 0
Reader = Option ReaderImpl

-- The reader after a call, what the call returned or `none` for false, and its diagnostics.
pub record Reading (A : Type 0) : Type 0 where
  pub reader : Reader
  pub result : Option A
  pub diagnostics : List Diagnostic

abbrev pub gives_up : {A : Type 0} → ReaderImpl → DiagnosticCode → String → Reading A
gives_up r c m = record { reader = some r; result = none; diagnostics = an_error c m ∷ [] }

-- `ReadString`: at most a mebibyte.
pub read_string : Parse Bytes
read_string = do size ← read_number 4; require (leb size 0x10_0000); read_bytes size

-- The fields in front of the schema. The tile's `z` is not in the file.
pub read_preamble : TileId → Parse (ℕ × ℕ × TileId × ℕ)
read_preamble tile = do
  header ← read_bytes 8
  require (bytes_eq header spool_header)
  version ← read_number 4
  space ← read_number 1
  level ← read_number 4
  x ← read_number 8
  y ← read_number 8
  count ← read_number 4
  require (leb count 100000)
  pure (
    version,
    space,
    record tile { level = signed 32 level; x = signed 64 x; y = signed 64 y },
    count,
  )

-- The loop over the attributes: each a name and the byte that stands for its type.
pub read_raw_schema : ℕ → Parse (List (Bytes × ℕ))
read_raw_schema zero = pure []
read_raw_schema (suc n) = do
  name ← read_string
  code ← read_number 1
  rest ← read_raw_schema n
  pure ((name, code) ∷ rest)

-- The enumerator with a given number. A byte that is no enumerator has no attribute size, and the
-- schema that holds it is not valid.
abbrev pub type_of_code : ℕ → Option PointAttributeType
type_of_code n =
    if n == 0
    then some int32
    else if n == 1
    then some int16
    else if n == 2
    then some uint8
    else if n == 3
    then some uint16
    else if n == 4
    then some uint32
    else if n == 5
    then some uint64
    else if n == 6
    then some float32
    else if n == 7
    then some float64
    else if n == 8
    then some float64_vec2
    else if n == 9
    then some float64_vec3
    else none

pub resolve_schema : List (Bytes × ℕ) → Option (List PointAttribute)
resolve_schema [] = some []
resolve_schema ((name, code) ∷ rest) = elim (type_of_code code) [
  | none ↦ none
  | some t ↦ elim (resolve_schema rest) [
    | none ↦ none
    | some as' ↦ some (record { name = name; type = t } ∷ as')
  ]
]

-- What `Open` returns: the tile and the schema of the file.
abbrev pub Opened : Type 0
Opened = TileId × SpoolSchema

pub footer_size : ℕ
footer_size = 16

-- The layout check at the end of `Open`, at the first byte behind the schema.
pub check_layout : ReaderImpl → TileId → SpoolSchema → Reading Opened
unfolding footer_size
check_layout r tile schema =
    let size = record_size schema.attributes in
    let room = file_end r.stream - r.stream.position in
    let r' = record r { record_size = size } in
    if ltb room footer_size || not ((room - footer_size) % size == 0)
    then gives_up r' DiagnosticCode.spool_incomplete "invalid tile spool record layout"
    else record {
      reader = some (record r' {
        schema = schema;
        data_end = file_end r.stream - footer_size;
        bytes_read = moved_stats r.bytes_read r.stream.position;
      });
      result = some (tile, schema);
      diagnostics = [];
    }

pub check_schema : ReaderImpl → ℕ × ℕ × TileId × ℕ → Option (List PointAttribute) → Reading Opened
check_schema r (version, space, tile, count) none =
    gives_up r DiagnosticCode.invalid_point_tile "tile spool schema or tile id is invalid"
check_schema r (version, space, tile, count) (some attributes) =
    let schema : SpoolSchema = record {
      version = version;
      coordinate_space = space;
      attributes = attributes;
    } in
    if not (schema_is_valid schema) || not (tile_is_valid tile)
    then gives_up r DiagnosticCode.invalid_point_tile "tile spool schema or tile id is invalid"
    else check_layout r tile schema

pub schema_read :
    ReaderImpl → ℕ × ℕ × TileId × ℕ → Option (List (Bytes × ℕ)) × InStream → Reading Opened
schema_read r p (none, s) =
    gives_up (record r { stream = s }) DiagnosticCode.spool_incomplete
      "invalid or truncated tile spool schema"
schema_read r p (some raw, s) = check_schema (record r { stream = s }) p (resolve_schema raw)

pub read_schema : ReaderImpl → ℕ × ℕ × TileId × ℕ → Reading Opened
read_schema r (version, space, tile, count) =
    schema_read r (version, space, tile, count) (read_raw_schema count r.stream)

abbrev pub no_schema : SpoolSchema
no_schema = record { version = 2; coordinate_space = 1; attributes = [] }

abbrev pub fresh : Option ℕ → InStream → ReaderImpl
fresh stats s = record {
  stream = s;
  schema = no_schema;
  point_count = 0;
  points_read = 0;
  data_end = 0;
  record_size = 0;
  bytes_read = stats;
  complete = false;
}

pub preamble_read : Option ℕ → Option (ℕ × ℕ × TileId × ℕ) × InStream → Reading Opened
preamble_read stats (none, s) =
    gives_up (fresh stats s) DiagnosticCode.spool_incomplete
      "invalid or truncated tile spool header"
preamble_read stats (some p, s) = read_schema (fresh stats s) p

pub reader_open : String → TileId → OpenResult Bytes → Option ℕ → Reading Opened
reader_open path tile (refused exhausted) stats = record {
  reader = none;
  result = none;
  diagnostics =
      (if exhausted
        then an_error DiagnosticCode.open_file_budget_exhausted
            (text "unable to open tile spool, the process has no file handles left: " path)
        else an_error DiagnosticCode.spool_incomplete (text "unable to open tile spool: " path))
      ∷ [];
}
reader_open path tile (opened content) stats =
    preamble_read stats (read_preamble tile (record { good = true; position = 0; rest = content }))

pub read_vec : Parse Vec3d
read_vec = do
  x ← read_number 8
  y ← read_number 8
  z ← read_number 8
  pure (record { x = x; y = y; z = z })

pub read_attributes : List PointAttribute → Parse (List SpoolAttributeValue)
read_attributes [] = pure []
read_attributes (a ∷ types) = do
  v ← read_attribute a.type
  values ← read_attributes types
  pure (v ∷ values)

pub read_point : List PointAttribute → Parse SpoolPoint
read_point types = do
  source ← read_vec
  stage ← read_vec
  values ← read_attributes types
  pure (record { source_position = source; stage_position = stage; attributes = values })

abbrev pub count_read : ReaderImpl → InStream → Option ℕ
count_read r s = moved_stats r.bytes_read (s.position - r.stream.position)

-- The footer: its mark, and the number of points that were read.
pub read_footer : ℕ → Parse ℕ
read_footer points_read = do
  footer ← read_bytes 8
  require (bytes_eq footer spool_footer)
  count ← read_number 8
  require (count == points_read)
  pure count

pub footer_read : ReaderImpl → Option ℕ × InStream → Reading SpoolPoint
footer_read r (none, s) =
    gives_up (record r { stream = s }) DiagnosticCode.spool_incomplete "incomplete tile spool"
footer_read r (some count, s) = record {
  reader =
      some (record r {
        stream = s;
        point_count = count;
        complete = true;
        bytes_read = count_read r s;
      });
  result = none;
  diagnostics = [];
}

pub read_end : ReaderImpl → Reading SpoolPoint
read_end r = footer_read r (read_footer r.points_read r.stream)

pub point_read : ReaderImpl → Option SpoolPoint × InStream → Reading SpoolPoint
point_read r (none, s) =
    gives_up (record r { stream = s }) DiagnosticCode.spool_incomplete "truncated tile spool point"
point_read r (some p, s) = record {
  reader =
      some (record r { stream = s; points_read = r.points_read + 1; bytes_read = count_read r s });
  result = some p;
  diagnostics = [];
}

pub read_record : ReaderImpl → Reading SpoolPoint
read_record r =
    if ltb (r.data_end - r.stream.position) r.record_size
    then gives_up r DiagnosticCode.spool_incomplete "truncated tile spool point"
    else point_read r (read_point r.schema.attributes r.stream)

pub read_next_open : ReaderImpl → Reading SpoolPoint
read_next_open r =
    if not r.stream.good || r.complete
    then record { reader = some r; result = none; diagnostics = [] }
    else (if ltb r.data_end r.stream.position
        then gives_up r DiagnosticCode.spool_incomplete "incomplete tile spool"
        else (if r.stream.position == r.data_end then read_end r else read_record r))

pub read_next : Reader → Reading SpoolPoint
read_next none = record { reader = none; result = none; diagnostics = [] }
read_next (some r) = read_next_open r

unfoldable pub is_complete : Reader → Bool
is_complete none = false
is_complete (some r) = r.complete

pub reader_close : Reader → Reader
reader_close r = none

-- The loop of the spool's client, `while (reader.ReadNext(point, diagnostics))`: the points in order,
-- and the reader and the diagnostics that the loop ends with. Each round takes a record, so the
-- number of points and one more is fuel enough.
pub next_round :
    (Reader → List SpoolPoint × Reader × List Diagnostic)
    → Reading SpoolPoint
    → List SpoolPoint × Reader × List Diagnostic
next_round later next = elim next.result [
  | none ↦ ([], next.reader, next.diagnostics)
  | some p ↦
      let (points, reader, diagnostics) = later next.reader in
      (p ∷ points, reader, next.diagnostics ++ diagnostics)
]

pub read_points : ℕ → Reader → List SpoolPoint × Reader × List Diagnostic
read_points zero r = ([], r, [])
read_points (suc fuel) r = next_round (read_points fuel) (read_next r)
