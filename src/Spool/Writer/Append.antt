-- ===== src/Spool/Writer/Append.antt =====
-- A spool that is opened and given points, on a device of any capacity, with any buffer in front of it.
use native.Mathlib.Decide.{dec_le}
use usd_pointcloud_plugins.Prelude.{
  ℕ, ◌*◌, ◌^◌, ◌<◌, ◌≡◌, refl, sym, ap, subst, Bool, true, false, ◌==◌, if◌then◌else◌, List, [],
  ◌∷◌, ◌++◌, length, length-append, append-nil, append_assoc, All, arith, Option, none, some,
  String,
}
use usd_pointcloud_plugins.Core.TileId.{TileId, tile_is_valid}
use usd_pointcloud_plugins.Spool.Stream.{Device, total_room}
use usd_pointcloud_plugins.Spool.Schema.{SpoolSchema, SpoolPoint, record_size, schema_is_valid}
use usd_pointcloud_plugins.Spool.Layout.{
  FitsPoint, points_bytes, start_bytes, preamble_bytes, attributes_bytes,
}
use usd_pointcloud_plugins.Spool.Writer.{
  WriterImpl, Outcome, opened, moved_stats, writer_open, open_stream, start_spool, writer_append,
}
use usd_pointcloud_plugins.Spool.Writer.Fields.{
  on, write_bytes_room, write_bytes_full, FitNames, write_preamble-bytes, write_schema_room,
  write_schema_full,
}
use usd_pointcloud_plugins.Spool.Writer.Steps.{
  writing, Holding, holding, gave_up, append_writing, points_bytes-append,
}

-- A client that stops at the first call that returns false.
pub append_all : Outcome → List SpoolPoint → Outcome
append_all o [] = o
append_all o (p ∷ points) = if o.result then append_all (writer_append o.writer p) points else o

schema_size :
    (schema : SpoolSchema)
    → schema_is_valid schema ≡ true
    → (length schema.attributes < 2 ^ 32) × (schema.coordinate_space < 2 ^ 8)
unfolding schema_is_valid
schema_size schema v = ground arith

pub when_true : (b : Bool) (x y : Outcome) → b ≡ true → (if b then x else y) ≡ x
when_true b x y h = rw h refl

pub when_false : (b : Bool) (x y : Outcome) → b ≡ false → (if b then x else y) ≡ y
when_false b x y h = rw h refl

module _ (tile : TileId) (schema : SpoolSchema) (limit : ℕ) (device : Device)
    (stats : Option ℕ) where
  start_state :
      record {
        stream = on (preamble_bytes tile schema ++ attributes_bytes schema.attributes) device;
        schema = schema;
        memory_limit = limit;
        buffered = 0;
        point_count = 0;
        points = [];
        bytes_written =
            moved_stats stats
              (length (preamble_bytes tile schema ++ attributes_bytes schema.attributes));
        is_open = true;
      }
      ≡ writing tile schema limit device stats [] []
  unfolding start_bytes points_bytes
  start_state =
      let none_left : 0 * record_size schema.attributes ≡ 0 = omega arith in
      cc (none_left, append-nil (preamble_bytes tile schema ++ attributes_bytes schema.attributes))

  pub open-Holding :
      (path : String)
      → tile_is_valid tile ≡ true
      → schema_is_valid schema ≡ true
      → FitNames schema.attributes
      → 0 < limit
      → Holding tile schema limit device stats []
          (writer_open none path tile schema limit (opened (on [] device)) stats)
  unfolding writer_open open_stream start_spool start_bytes points_bytes
  open-Holding path v w names l =
      let (count, space) = schema_size schema w in
      let pre = preamble_bytes tile schema in
      let atts = attributes_bytes schema.attributes in
      let nonzero = not_zero limit l in
      let put = write_preamble-bytes tile schema (on [] device) space count in
      elim (dec_le (length pre) (total_room device)) [
        | yes fits ↦ elim (dec_le (length (pre ++ atts)) (total_room device)) [
          | yes room ↦
              rw
                (
                  v,
                  w,
                  nonzero,
                  put,
                  write_bytes_room [] device pre (omega arith),
                  write_schema_room schema.attributes pre device names
                      (omega (arith, length-append pre atts)),
                )
                (holding [] [] refl tt (omega (arith, ap length (append-nil (pre ++ atts)))) (
                  ap
                    (λ (x : WriterImpl).
                      let o : Outcome = record {
                        writer = some x;
                        result = true;
                        diagnostics = [];
                      } in
                      o)
                    start_state))
          | no full ↦
              rw
                (
                  v,
                  w,
                  nonzero,
                  put,
                  write_bytes_room [] device pre (omega arith),
                  write_schema_full schema.attributes pre device names fits
                      (omega (arith, length-append pre atts)),
                )
                (gave_up (omega (arith, ap length (append-nil (pre ++ atts)))) refl)
        ]
        | no full ↦
            rw (v, w, nonzero, put, write_bytes_full [] device pre (omega arith))
              (gave_up (omega (arith, length-append pre atts, ap length (append-nil (pre ++ atts))))
                refl)
      ]
    where
      not_zero : (k : ℕ) → 0 < k → (k == 0) ≡ false
      not_zero k h = ground arith

  longer :
      (given more : List SpoolPoint)
      → device.capacity < length (start_bytes tile schema ++ points_bytes given)
      → device.capacity < length (start_bytes tile schema ++ points_bytes (given ++ more))
  longer given more h = rw (points_bytes-append given more) (
      omega (
        arith,
        length-append (start_bytes tile schema) (points_bytes given),
        length-append (start_bytes tile schema) (points_bytes given ++ points_bytes more),
        length-append (points_bytes given) (points_bytes more),
      ))

  append_more :
      (given : List SpoolPoint) (o : Outcome) (p : SpoolPoint)
      → FitsPoint schema.attributes p
      → Holding tile schema limit device stats given o
      → Holding tile schema limit device stats
          (given ++ p ∷ [])
          (if o.result then writer_append o.writer p else o)
  append_more given o p f (holding done pending e fits l h) =
      subst
        (λ ps.
          Holding tile schema limit device stats (ps ++ p ∷ [])
            (if o.result then writer_append o.writer p else o))
        e
        (subst
          (λ (x : Outcome).
            Holding tile schema limit device stats ((done ++ pending) ++ p ∷ [])
              (if x.result then writer_append x.writer p else x))
          (sym h) (append_writing tile schema limit device stats done pending p fits f l))
  append_more given o p f (gave_up full h) =
      subst (Holding tile schema limit device stats (given ++ p ∷ []))
        (sym (when_false o.result (writer_append o.writer p) o h))
        (gave_up (longer given (p ∷ []) full) h)

  pub append_all-Holding :
      (given points : List SpoolPoint) (o : Outcome)
      → All (FitsPoint schema.attributes) points
      → Holding tile schema limit device stats given o
      → Holding tile schema limit device stats (given ++ points) (append_all o points)
  unfolding append_all
  append_all-Holding given [] o fits h =
      subst (λ ps. Holding tile schema limit device stats ps o) (sym (append-nil given)) h
  append_all-Holding given (p ∷ points) o (f, fits) (gave_up full h) =
      subst (Holding tile schema limit device stats (given ++ p ∷ points))
        (sym (when_false o.result (append_all (writer_append o.writer p) points) o h))
        (gave_up (longer given (p ∷ points) full) h)
  append_all-Holding given (p ∷ points) o (f, fits) (holding done pending e all_fit l h) =
      let ok : o.result ≡ true = ap (λ (x : Outcome). x.result) h in
      let next =
        subst (Holding tile schema limit device stats (given ++ p ∷ []))
          (when_true o.result (writer_append o.writer p) o ok)
          (append_more given o p f (holding done pending e all_fit l h)) in
      subst (Holding tile schema limit device stats (given ++ p ∷ points))
        (sym (when_true o.result (append_all (writer_append o.writer p) points) o ok))
        (subst
          (λ ps.
            Holding tile schema limit device stats ps
              (append_all (writer_append o.writer p) points))
          (append_assoc given (p ∷ []) points)
          (append_all-Holding (given ++ p ∷ []) points (writer_append o.writer p) fits next))
