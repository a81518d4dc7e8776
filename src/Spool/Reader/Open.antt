-- ===== src/Spool/Reader/Open.antt =====
-- `TileSpoolReader::Open` on a file that has the layout of a spool.
use native.Mathlib.Nat.{mul-mod_left, zero-add}
use usd_pointcloud_plugins.Prelude.{
  ℕ, ◌+◌, ◌-◌, ◌*◌, ◌≡◌, ap, ◌∙◌, true, false, and_true, eqb→eq, String, ltb, [], ◌++◌, Bytes,
  length, append_assoc, arith, Option, some,
}
use usd_pointcloud_plugins.Core.TileId.{TileId, FitsTileId, tile_is_valid}
use usd_pointcloud_plugins.Spool.Stream.{at}
use usd_pointcloud_plugins.Spool.Writer.{opened, moved_stats}
use usd_pointcloud_plugins.Spool.Schema.{SpoolSchema, record_size, schema_is_valid}
use usd_pointcloud_plugins.Spool.Layout.{FitsReader, preamble_bytes, attributes_bytes, start_bytes}
use usd_pointcloud_plugins.Spool.Reader.{
  reader_open, preamble_read, read_schema, schema_read, check_schema, check_layout, fresh,
}
use usd_pointcloud_plugins.Spool.Reader.Fields.{
  read_preamble-Parses, read_raw_schema-Parses, resolve_schema-raw,
}
use usd_pointcloud_plugins.Spool.Reader.Loop.{reading}

schema_constants :
    (s : SpoolSchema) → schema_is_valid s ≡ true → (s.version ≡ 2) × (s.coordinate_space ≡ 1)
unfolding schema_is_valid
schema_constants s h =
    let (a, h1) = and_true _ _ h in
    let (b, h2) = and_true _ _ a in let (c, d) = and_true _ _ b in (eqb→eq _ _ c, eqb→eq _ _ d)

check_layout_lem :
    (tile : TileId) (schema : SpoolSchema) (pos n : ℕ) (rest : Bytes) (stats : Option ℕ)
    → length rest ≡ n * record_size schema.attributes + 16
    → check_layout (fresh stats (at pos rest)) tile schema ≡ record {
      reader = some (
          reading schema pos rest
            (pos + n * record_size schema.attributes)
            0
            0
            (moved_stats stats pos));
      result = some (tile, schema);
      diagnostics = [];
    }
unfolding check_layout
check_layout_lem tile schema pos n rest stats e = rw (
  room_enough pos (length rest) (n * record_size schema.attributes) e,
  room_is pos (length rest) (n * record_size schema.attributes) e,
  mul-mod_left n (record_size schema.attributes),
  end_is pos (length rest) (n * record_size schema.attributes) e,
)
  where
    room_enough : (p l k : ℕ) → l ≡ k + 16 → ltb (p + l - p) 16 ≡ false
    room_enough p l k h = ground arith

    room_is : (p l k : ℕ) → l ≡ k + 16 → p + l - p - 16 ≡ k
    room_is p l k h = omega arith

    end_is : (p l k : ℕ) → l ≡ k + 16 → p + l - 16 ≡ p + k
    end_is p l k h = omega arith

-- Behind the preamble.
read_schema_lem :
    (tile : TileId) (schema : SpoolSchema) (pos n : ℕ) (rest : Bytes) (stats : Option ℕ)
    → tile_is_valid tile ≡ true
    → schema_is_valid schema ≡ true
    → FitsReader schema
    → length rest ≡ n * record_size schema.attributes + 16
    → let pos' = pos + length (attributes_bytes schema.attributes) in
      read_schema
        (fresh stats (at pos (attributes_bytes schema.attributes ++ rest)))
        (schema.version, schema.coordinate_space, tile, length schema.attributes)
      ≡ record {
        reader = some (
            reading schema pos' rest
              (pos' + n * record_size schema.attributes)
              0
              0
              (moved_stats stats pos'));
        result = some (tile, schema);
        diagnostics = [];
      }
unfolding read_schema schema_read check_schema
read_schema_lem tile schema pos n rest stats v w (names, count) e =
    let p : ℕ × ℕ × TileId × ℕ =
      (schema.version, schema.coordinate_space, tile, length schema.attributes) in
    let r = fresh stats (at pos (attributes_bytes schema.attributes ++ rest)) in
    ap (schema_read r p) ((read_raw_schema-Parses schema.attributes names).run pos rest)
    ∙ rw (resolve_schema-raw schema.attributes, w, v)
        (check_layout_lem tile schema _ n rest stats e)

-- On the layout of a spool, with any number of records, `Open` returns the tile, with the `z` that the
-- caller's tile had, and the schema, and stands in front of the first record.
pub reader_open-start :
    (path : String) (tile start : TileId) (schema : SpoolSchema) (n : ℕ) (rest : Bytes)
    (stats : Option ℕ)
    → FitsTileId tile
    → tile_is_valid tile ≡ true
    → schema_is_valid schema ≡ true
    → FitsReader schema
    → length rest ≡ n * record_size schema.attributes + 16
    → let pos = length (preamble_bytes tile schema) + length (attributes_bytes schema.attributes) in
      reader_open path start (opened (start_bytes tile schema ++ rest)) stats ≡ record {
        reader = some (
            reading schema pos rest
              (pos + n * record_size schema.attributes)
              0
              0
              (moved_stats stats pos));
        result = some (record tile { z = start.z }, schema);
        diagnostics = [];
      }
unfolding reader_open preamble_read start_bytes
reader_open-start path tile start schema n rest stats f v w r e =
    let (version, space) = schema_constants schema w in
    let pre = length (preamble_bytes tile schema) in
    let tile' : TileId = record tile { z = start.z } in
    rw (append_assoc (preamble_bytes tile schema) (attributes_bytes schema.attributes) rest) (
      ap (preamble_read stats) (
        (read_preamble-Parses tile start schema f (omega arith) (omega arith) r.1).run 0
          (attributes_bytes schema.attributes ++ rest))
      ∙ rw (zero-add pre)
          (read_schema_lem tile' schema pre n rest stats (unfold tile_is_valid in v) w r e))
