-- ===== src/Spool/Writer/Run.antt =====
-- Opening a spool, writing points and closing it, on a device of any capacity, with any buffer in front of it.
use native.Mathlib.Decide.{dec_le}
use usd_pointcloud_plugins.Prelude.{
  ℕ, ◌+◌, ◌-◌, ◌≤◌, ◌<◌, ◌≡◌, refl, sym, ap, ◌∙◌, subst, true, false, not, if◌then◌else◌, leb,
  le→leb, List, [], ◌++◌, length, length-append, append_assoc, All, arith, Option, none, some,
  String,
}
use usd_pointcloud_plugins.Core.Diagnostic.{DiagnosticCode}
use usd_pointcloud_plugins.Core.TileId.{TileId, tile_is_valid}
use usd_pointcloud_plugins.Spool.Stream.{Device, total_room, OutStream, write_number, flush_stream}
use usd_pointcloud_plugins.Prelude.Words.{to_bytes}
use usd_pointcloud_plugins.Spool.Stream.Laws.{
  write_bytes-append, flush_stream_room, flush_stream_full, flush_stream_failed,
}
use usd_pointcloud_plugins.Spool.Schema.{SpoolSchema, SpoolPoint, schema_is_valid}
use usd_pointcloud_plugins.Spool.Layout.{
  FitsPoint, points_bytes, footer_bytes, start_bytes, spool_bytes,
}
use usd_pointcloud_plugins.Spool.Writer.{
  WriterImpl, Outcome, opened, moved_stats, writer_open, writer_flush, writer_close, close_open,
  finish, fails, succeeds, count_written, spool_footer,
}
use usd_pointcloud_plugins.Spool.Writer.Fields.{on, write_bytes_room, write_bytes_full, FitNames}
use usd_pointcloud_plugins.Spool.Writer.Steps.{
  writing, Flushed, flushed_all, device_full, flush_writing, moved_on, Holding, holding, gave_up,
}
use usd_pointcloud_plugins.Spool.Writer.Append.{
  append_all, when_false, open-Holding, append_all-Holding,
}

pub write_spool : String → TileId → SpoolSchema → ℕ → Device → Option ℕ → List SpoolPoint → Outcome
write_spool path tile schema limit device stats points =
    let o =
      append_all (writer_open none path tile schema limit (opened (on [] device)) stats) points in
    if o.result then writer_close o.writer else o

-- The same client, with a flush in place of the close.
pub flush_spool : String → TileId → SpoolSchema → ℕ → Device → Option ℕ → List SpoolPoint → Outcome
flush_spool path tile schema limit device stats points =
    let o =
      append_all (writer_open none path tile schema limit (opened (on [] device)) stats) points in
    if o.result then writer_flush o.writer else o

over : {a b : ℕ} → a < b → leb b a ≡ false
over h = ground arith

module _ (tile : TileId) (schema : SpoolSchema) (limit : ℕ) (device : Device)
    (stats : Option ℕ) where
  abbrev pub closed : List SpoolPoint → WriterImpl
  closed points = record (writing tile schema limit device stats points []) {
    stream = on (spool_bytes tile schema points) device;
    bytes_written = moved_stats stats (length (spool_bytes tile schema points));
    is_open = false;
  }

  pub data Closed (points : List SpoolPoint) (o : Outcome) : Type 0 where
    closed_all :
        length (spool_bytes tile schema points) ≤ device.capacity
        → o ≡ record { writer = some (closed points); result = true; diagnostics = [] }
        → Closed points o
    no_room :
        device.capacity < length (spool_bytes tile schema points)
        → o.result ≡ false
        → Closed points o

  -- What `finish` does with the stream behind the footer.
  abbrev ended : WriterImpl → OutStream → Outcome
  ended w s =
      if not s.good
      then fails (record w { stream = s }) DiagnosticCode.spool_write_failed
          "unable to finalize tile spool"
      else succeeds (record w {
        stream = s;
        bytes_written = count_written w.bytes_written w.stream s;
        is_open = false;
      })

  ended_fails : (w : WriterImpl) (s : OutStream) → s.good ≡ false → (ended w s).result ≡ false
  ended_fails w s h = rw h refl

  settled :
      (points : List SpoolPoint)
      → let c = start_bytes tile schema ++ points_bytes points in
        let foot = footer_bytes (length points) in
        record (writing tile schema limit device stats points []) {
          stream = on (c ++ foot) device;
          bytes_written =
              moved_stats (moved_stats stats (length c)) (length (c ++ foot) - length c);
          is_open = false;
        }
        ≡ closed points
  unfolding spool_bytes
  settled points =
      let c = start_bytes tile schema ++ points_bytes points in
      let foot = footer_bytes (length points) in
      cc (
        moved_on stats (length c) (length (c ++ foot)) (omega (arith, length-append c foot)),
        append_assoc (start_bytes tile schema) (points_bytes points) foot,
      )

  finish-Closed :
      (points : List SpoolPoint)
      → length (start_bytes tile schema ++ points_bytes points) ≤ device.capacity
      → Closed points (finish (some (writing tile schema limit device stats points [])))
  unfolding finish spool_bytes footer_bytes write_number
  finish-Closed points l =
      let c = start_bytes tile schema ++ points_bytes points in
      let w = writing tile schema limit device stats points [] in
      let foot = spool_footer ++ to_bytes 8 (length points) in
      let same = append_assoc (start_bytes tile schema) (points_bytes points) foot in
      let put = write_bytes-append (on c device) spool_footer (to_bytes 8 (length points)) in
      let sizes = length-append c foot in
      elim (dec_le (length c + length foot) (total_room device)) [
        | yes fit ↦
            let done = put ∙ write_bytes_room c device foot fit in
            elim (dec_le (length (c ++ foot)) device.capacity) [
              | yes stays ↦
                  subst (λ s. Closed points (ended w s))
                    (sym
                      (ap flush_stream done ∙ flush_stream_room (on (c ++ foot) device) refl stays))
                    (closed_all (omega (arith, ap length same)) (
                      ap
                        (λ (x : WriterImpl).
                          let o : Outcome = record {
                            writer = some x;
                            result = true;
                            diagnostics = [];
                          } in
                          o)
                        (settled points)))
              | no full ↦ no_room (omega (arith, ap length same)) (
                  ended_fails w _ (
                    ap (λ (s : OutStream). (flush_stream s).good) done
                    ∙ flush_stream_full (on (c ++ foot) device) (omega arith)))
            ]
        | no full ↦ no_room (omega (arith, sizes, ap length same)) (
            ended_fails w _ (
              ap (λ (s : OutStream). (flush_stream s).good) put
              ∙ flush_stream_failed _ (write_bytes_full c device foot (omega arith))))
      ]

  longer_end :
      (points : List SpoolPoint)
      → device.capacity < length (start_bytes tile schema ++ points_bytes points)
      → device.capacity < length (spool_bytes tile schema points)
  unfolding spool_bytes
  longer_end points h =
      let foot = footer_bytes (length points) in
      omega (
        arith,
        length-append (start_bytes tile schema ++ points_bytes points) foot,
        ap length (append_assoc (start_bytes tile schema) (points_bytes points) foot),
      )

  close-Flushed :
      (done pending : List SpoolPoint) (o : Outcome)
      → Flushed tile schema limit device stats done pending o
      → Closed (done ++ pending) (close_open o)
  unfolding close_open
  close-Flushed done pending o (flushed_all room h) =
      subst (λ (x : Outcome). Closed (done ++ pending) (if x.result then finish x.writer else x))
        (sym h) (finish-Closed (done ++ pending) room)
  close-Flushed done pending o (device_full full h) =
      subst (Closed (done ++ pending)) (sym (when_false o.result (finish o.writer) o h))
        (no_room (longer_end (done ++ pending) full) h)

  close_Holding :
      (points : List SpoolPoint) (o : Outcome)
      → Holding tile schema limit device stats points o
      → Closed points (if o.result then writer_close o.writer else o)
  unfolding writer_close
  close_Holding points o (holding done pending e fits l h) =
      subst (λ (x : Outcome). Closed points (if x.result then writer_close x.writer else x)) (sym h)
        (subst
          (λ ps. Closed ps (
            close_open (writer_flush (some (writing tile schema limit device stats done pending)))))
          e
          (close-Flushed done pending _
            (flush_writing tile schema limit device stats done pending fits l)))
  close_Holding points o (gave_up full h) =
      subst (Closed points) (sym (when_false o.result (writer_close o.writer) o h))
        (no_room (longer_end points full) h)

  pub write_spool-Closed :
      (path : String) (points : List SpoolPoint)
      → tile_is_valid tile ≡ true
      → schema_is_valid schema ≡ true
      → FitNames schema.attributes
      → 0 < limit
      → All (FitsPoint schema.attributes) points
      → Closed points (write_spool path tile schema limit device stats points)
  unfolding write_spool
  write_spool-Closed path points v w names l fits = close_Holding points _ (
      append_all-Holding tile schema limit device stats [] points _ fits
        (open-Holding tile schema limit device stats path v w names l))

  flush_Holding :
      (points : List SpoolPoint) (o : Outcome)
      → Holding tile schema limit device stats points o
      → (if o.result then writer_flush o.writer else o).result
        ≡ leb (length (start_bytes tile schema ++ points_bytes points)) device.capacity
  flush_Holding points o (holding done pending e fits l h) =
      subst
        (λ (x : Outcome).
          (if x.result then writer_flush x.writer else x).result
          ≡ leb (length (start_bytes tile schema ++ points_bytes points)) device.capacity)
        (sym h)
        (subst
          (λ ps.
            (writer_flush (some (writing tile schema limit device stats done pending))).result
            ≡ leb (length (start_bytes tile schema ++ points_bytes ps)) device.capacity)
          e
          (elim (flush_writing tile schema limit device stats done pending fits l) [
            | flushed_all r k ↦ ap (λ (o : Outcome). o.result) k ∙ sym (le→leb _ _ r)
            | device_full f k ↦ k ∙ sym (over f)
          ]))
  flush_Holding points o (gave_up full h) =
      ap (λ (x : Outcome). x.result) (when_false o.result (writer_flush o.writer) o h)
      ∙ h
      ∙ sym (over full)

  pub flush_spool-result :
      (path : String) (points : List SpoolPoint)
      → tile_is_valid tile ≡ true
      → schema_is_valid schema ≡ true
      → FitNames schema.attributes
      → 0 < limit
      → All (FitsPoint schema.attributes) points
      → (flush_spool path tile schema limit device stats points).result
        ≡ leb (length (start_bytes tile schema ++ points_bytes points)) device.capacity
  unfolding flush_spool
  flush_spool-result path points v w names l fits = flush_Holding points _ (
      append_all-Holding tile schema limit device stats [] points _ fits
        (open-Holding tile schema limit device stats path v w names l))

-- For a valid tile, a valid schema with names of 32-bit length, a memory limit above zero and
-- points that fit the schema, a spool that fits the device is written whole: the file is the
-- layout, the caller's counter moved by its size, and the writer is closed with nothing in memory.
pub write_spool-spool_bytes :
    (path : String) (tile : TileId) (schema : SpoolSchema) (limit : ℕ) (device : Device)
    (stats : Option ℕ) (points : List SpoolPoint)
    → tile_is_valid tile ≡ true
    → schema_is_valid schema ≡ true
    → FitNames schema.attributes
    → 0 < limit
    → All (FitsPoint schema.attributes) points
    → length (spool_bytes tile schema points) ≤ device.capacity
    → write_spool path tile schema limit device stats points ≡ record {
      writer = some (closed tile schema limit device stats points);
      result = true;
      diagnostics = [];
    }
write_spool-spool_bytes path tile schema limit device stats points v w names l fits stays =
    elim (write_spool-Closed tile schema limit device stats path points v w names l fits) [
      | closed_all r e ↦ e
      | no_room full e ↦ absurd (omega arith)
    ]

-- For a valid tile, a valid schema with names of 32-bit length, a memory limit above zero and points that
-- fit the schema, on a device with any capacity behind a buffer of any size: opening a spool, appending
-- the points and flushing it succeeds exactly when the device holds the header, the schema and the points,
-- and closing the spool in place of the flush succeeds exactly when it holds the footer as well. Otherwise
-- some call returned false, also where the bytes still fit the buffer.
pub write_spool-reports :
    (path : String) (tile : TileId) (schema : SpoolSchema) (limit : ℕ) (device : Device)
    (stats : Option ℕ) (points : List SpoolPoint)
    → tile_is_valid tile ≡ true
    → schema_is_valid schema ≡ true
    → FitNames schema.attributes
    → 0 < limit
    → All (FitsPoint schema.attributes) points
    → ((flush_spool path tile schema limit device stats points).result
        ≡ leb (length (start_bytes tile schema ++ points_bytes points)) device.capacity)
      × ((write_spool path tile schema limit device stats points).result
          ≡ leb (length (spool_bytes tile schema points)) device.capacity)
write_spool-reports path tile schema limit device stats points v w names l fits = (
  flush_spool-result tile schema limit device stats path points v w names l fits,
  elim (write_spool-Closed tile schema limit device stats path points v w names l fits) [
    | closed_all r e ↦ ap (λ (o : Outcome). o.result) e ∙ sym (le→leb _ _ r)
    | no_room f e ↦ e ∙ sym (over f)
  ],
)
