-- ===== src/Spool/RoundTrip.antt =====
-- A spool that the writer finished, read again.
use usd_pointcloud_plugins.Prelude.{
  ℕ, suc, ◌++◌, Bytes, ◌+◌, ◌*◌, ◌<◌, ◌≤◌, ◌≡◌, refl, ap, ◌∙◌, true, List, [], ◌∷◌, length,
  length-append, All, Option, none, some, String, arith, Bool,
}
use usd_pointcloud_plugins.Prelude.Decimal.{IsU64}
use usd_pointcloud_plugins.Core.Diagnostic.{Diagnostic}
use usd_pointcloud_plugins.Core.TileId.{TileId, FitsTileId, tile_is_valid}
use usd_pointcloud_plugins.Spool.Stream.{Device}
use usd_pointcloud_plugins.Spool.Schema.{SpoolSchema, SpoolPoint, schema_is_valid, record_size}
use usd_pointcloud_plugins.Spool.Layout.{
  FitsPoint, FitsReader, points_bytes, footer_bytes, spool_bytes, preamble_bytes, attributes_bytes,
}
use usd_pointcloud_plugins.Spool.Writer.{Outcome, opened, moved_stats}
use usd_pointcloud_plugins.Spool.Writer.Fields.{FitNames}
use usd_pointcloud_plugins.Spool.Writer.Run.{write_spool, write_spool-spool_bytes}
use usd_pointcloud_plugins.Cloud.Attribute.{PointAttribute}
use usd_pointcloud_plugins.Spool.Reader.{reader_open, read_points, is_complete}
use usd_pointcloud_plugins.Spool.Reader.Loop.{read_points-reading}
use usd_pointcloud_plugins.Spool.Reader.Open.{reader_open-start}
use usd_pointcloud_plugins.Spool.Reader.Sizes.{length-points_bytes, length-footer_bytes}

-- What a client gets that opens a file and reads until `ReadNext` returns false.
pub record Contents : Type 0 where
  pub opened_as : Option (TileId × SpoolSchema)
  pub points : List SpoolPoint
  pub complete : Bool
  pub diagnostics : List Diagnostic

pub read_spool : ℕ → String → TileId → Bytes → Option ℕ → Contents
read_spool fuel path start file stats =
    let o = reader_open path start (opened file) stats in
    let r = read_points fuel o.reader in
    record {
      opened_as = o.result;
      points = r.0;
      complete = is_complete r.1;
      diagnostics = o.diagnostics ++ r.2;
    }

FitNames-reader :
    (types : List PointAttribute) → All (λ a. length a.name ≤ 0x10_0000) types → FitNames types
FitNames-reader [] h = h
FitNames-reader (a ∷ types) (h, hs) = (omega arith, FitNames-reader types hs)

pub read_spool_lem :
    (path : String) (tile start : TileId) (schema : SpoolSchema) (points : List SpoolPoint)
    (stats : Option ℕ)
    → FitsTileId tile
    → tile_is_valid tile ≡ true
    → schema_is_valid schema ≡ true
    → FitsReader schema
    → All (FitsPoint schema.attributes) points
    → IsU64 (length points)
    → (read_spool (suc (length points)) path start (spool_bytes tile schema points) stats)
      ≡ record {
        opened_as = some (record tile { z = start.z }, schema);
        points = points;
        complete = true;
        diagnostics = [];
      }
unfolding read_spool spool_bytes is_complete
read_spool_lem path tile start schema points stats f v w r fits u =
    let rest = points_bytes points ++ footer_bytes (length points) in
    let pos = length (preamble_bytes tile schema) + length (attributes_bytes schema.attributes) in
    let sizes = length-points_bytes schema.attributes points fits in
    let size : length rest ≡ length points * record_size schema.attributes + 16 = omega (
      arith,
      length-append (points_bytes points) (footer_bytes (length points)),
      length-footer_bytes (length points),
      sizes,
    ) in
    let o = reader_open-start path tile start schema (length points) rest stats f v w r size in
    let (x, e, c, k) =
      read_points-reading schema points pos (pos + length points * record_size schema.attributes) 0
        0 (length points) (moved_stats stats pos) fits (omega (arith, sizes)) (omega arith) u in
    rw (o, e, c) refl

-- The file behind a writer.
abbrev pub file_of : Outcome → Bytes
file_of o = elim o.writer [ none ↦ [] | some w ↦ w.stream.content ]

-- For a valid tile with fields in range, a valid schema within the limits of the reader, a memory
-- limit above zero, points that fit the schema and are fewer than 2 ^ 64, and a device with room:
-- what the writer wrote, the reader gives back. It gives the tile (with the `z` of the caller's
-- tile, which the file does not hold), the schema, every point once and in order, completion after
-- the last one, and no diagnostic.
pub read_spool-write_spool :
    (path : String) (tile start : TileId) (schema : SpoolSchema) (limit : ℕ) (device : Device)
    (points : List SpoolPoint) (written read : Option ℕ)
    → FitsTileId tile
    → tile_is_valid tile ≡ true
    → schema_is_valid schema ≡ true
    → FitsReader schema
    → 0 < limit
    → All (FitsPoint schema.attributes) points
    → IsU64 (length points)
    → length (spool_bytes tile schema points) ≤ device.capacity
    → read_spool
        (suc (length points))
        path
        start
        (file_of (write_spool path tile schema limit device written points))
        read
      ≡ record {
        opened_as = some (record tile { z = start.z }, schema);
        points = points;
        complete = true;
        diagnostics = [];
      }
read_spool-write_spool path tile start schema limit device points written read f v w r l fits u
      room =
    let names = FitNames-reader schema.attributes r.0 in
    ap (λ (o : Outcome). read_spool (suc (length points)) path start (file_of o) read)
      (write_spool-spool_bytes path tile schema limit device written points v w names l fits room)
    ∙ read_spool_lem path tile start schema points read f v w r fits u
