-- ===== src/Spool/Writer/Steps.antt =====
-- The operations of the writer, from a writer that has some points in the file and some in memory.
use native.Mathlib.Decide.{dec_le}
use usd_pointcloud_plugins.Prelude.{
  ℕ, ◌+◌, ◌-◌, ◌*◌, ◌≤◌, ◌<◌, ◌≡◌, refl, sym, ap, ◌∙◌, subst, true, false, not, if◌then◌else◌, leb,
  ◌==◌, List, [], ◌∷◌, ◌++◌, Bytes, length, length-append, append-nil, append_assoc, All,
  All-append, arith, Option, none, some, String, Bool-cases, inl, inr,
}
use usd_pointcloud_plugins.Core.TileId.{TileId}
use usd_pointcloud_plugins.Cloud.Attribute.{PointAttribute}
use usd_pointcloud_plugins.Spool.Stream.{Device, total_room, OutStream, flush_stream}
use usd_pointcloud_plugins.Spool.Stream.Laws.{flush_stream_room, flush_stream_full}
use usd_pointcloud_plugins.Core.Diagnostic.{DiagnosticCode}
use usd_pointcloud_plugins.Spool.Schema.{SpoolSchema, SpoolPoint, SpoolAttributeValue, record_size}
use usd_pointcloud_plugins.Spool.Layout.{FitsPoint, FitsValues, points_bytes, start_bytes}
use usd_pointcloud_plugins.Spool.Writer.{
  WriterImpl, Outcome, moved_stats, writer_append, append_open, writer_flush, flush_open, flushed,
  types_match, fails, succeeds, count_written,
}
use usd_pointcloud_plugins.Spool.Writer.Fields.{on}
use usd_pointcloud_plugins.Spool.Writer.Flush.{flush_points_room, flush_points_full}

module _ (tile : TileId) (schema : SpoolSchema) (limit : ℕ) (device : Device)
    (stats : Option ℕ) where
  abbrev file_with : List SpoolPoint → Bytes
  file_with done = start_bytes tile schema ++ points_bytes done

  -- A writer that has `done` in the file and `pending` in memory.
  abbrev pub writing : List SpoolPoint → List SpoolPoint → WriterImpl
  writing done pending = record {
    stream = on (file_with done) device;
    schema = schema;
    memory_limit = limit;
    buffered = length pending * record_size schema.attributes;
    point_count = length done;
    points = pending;
    bytes_written = moved_stats stats (length (file_with done));
    is_open = true;
  }

pub points_bytes-append :
    (xs ys : List SpoolPoint) → points_bytes (xs ++ ys) ≡ points_bytes xs ++ points_bytes ys
unfolding points_bytes
points_bytes-append [] ys = refl
points_bytes-append (x ∷ xs) ys =
    rw (points_bytes-append xs ys) (sym (append_assoc _ (points_bytes xs) (points_bytes ys)))

pub moved_on :
    (stats : Option ℕ) (a b : ℕ)
    → a ≤ b
    → moved_stats (moved_stats stats a) (b - a) ≡ moved_stats stats b
moved_on none a b h = refl
moved_on (some n) a b h = ap some (omega arith)

-- What is true of a flush that began with `done` in the file and `pending` in memory.
pub data Flushed (tile : TileId) (schema : SpoolSchema) (limit : ℕ) (device : Device)
    (stats : Option ℕ) (done pending : List SpoolPoint) (o : Outcome) : Type 0 where
  flushed_all :
      length (start_bytes tile schema ++ points_bytes (done ++ pending)) ≤ device.capacity
      → o ≡ record {
        writer = some (writing tile schema limit device stats (done ++ pending) []);
        result = true;
        diagnostics = [];
      }
      → Flushed tile schema limit device stats done pending o
  device_full :
      device.capacity < length (start_bytes tile schema ++ points_bytes (done ++ pending))
      → o.result ≡ false
      → Flushed tile schema limit device stats done pending o

flushed_fails :
    (w : WriterImpl) (r : OutStream × ℕ × Option String) (m : String)
    → r.2 ≡ some m
    → (flushed w r).result ≡ false
unfolding flushed
flushed_fails w (s, n, none) m e = cc
flushed_fails w (s, n, some x) m e = refl

-- What `flushed` does with the stream behind the flush, after points without a failure.
abbrev flush_ends : WriterImpl → ℕ → OutStream → Outcome
flush_ends w n s =
    let w' = record w { stream = s; point_count = n; points = []; buffered = 0 } in
    if not s.good
    then fails w' DiagnosticCode.spool_write_failed "unable to flush tile spool"
    else succeeds (record w' { bytes_written = count_written w.bytes_written w.stream s })

flush_ends_fails :
    (w : WriterImpl) (n : ℕ) (s : OutStream) → s.good ≡ false → (flush_ends w n s).result ≡ false
flush_ends_fails w n s h = rw h refl

module _ (tile : TileId) (schema : SpoolSchema) (limit : ℕ) (device : Device)
    (stats : Option ℕ) where
  joined :
      (done pending : List SpoolPoint)
      → (start_bytes tile schema ++ points_bytes done) ++ points_bytes pending
        ≡ start_bytes tile schema ++ points_bytes (done ++ pending)
  joined done pending =
      rw (points_bytes-append done pending)
        (append_assoc (start_bytes tile schema) (points_bytes done) (points_bytes pending))

  settled :
      (done pending : List SpoolPoint)
      → let c = start_bytes tile schema ++ points_bytes done in
        record (writing tile schema limit device stats done pending) {
          stream = on (c ++ points_bytes pending) device;
          buffered = 0;
          point_count = length done + length pending;
          points = [];
          bytes_written =
              moved_stats
                (moved_stats stats (length c))
                (length (c ++ points_bytes pending) - length c);
        }
        ≡ writing tile schema limit device stats (done ++ pending) []
  settled done pending =
      let c = start_bytes tile schema ++ points_bytes done in
      let none_left : 0 * record_size schema.attributes ≡ 0 = omega arith in
      cc (
        moved_on stats (length c) (length (c ++ points_bytes pending))
            (omega (arith, length-append c (points_bytes pending))),
        joined done pending,
        length-append done pending,
        none_left,
      )

  pub flush_writing :
      (done pending : List SpoolPoint)
      → All (FitsPoint schema.attributes) pending
      → length (start_bytes tile schema ++ points_bytes done) ≤ total_room device
      → Flushed tile schema limit device stats done pending
          (writer_flush (some (writing tile schema limit device stats done pending)))
  unfolding writer_flush flush_open flushed
  flush_writing done pending fits l =
      let w = writing tile schema limit device stats done pending in
      let c = start_bytes tile schema ++ points_bytes done in
      let all = on (c ++ points_bytes pending) device in
      let sizes = length-append c (points_bytes pending) in
      let same = ap length (joined done pending) in
      elim (dec_le (length c + length (points_bytes pending)) (total_room device)) [
        | yes fit ↦ elim (dec_le (length (c ++ points_bytes pending)) device.capacity) [
          | yes stays ↦ flushed_all (omega (arith, same)) (
              ap (flushed w)
                (flush_points_room schema.attributes pending c device (length done) fits fit)
              ∙ ap (flush_ends w (length done + length pending)) (flush_stream_room all refl stays)
              ∙ ap
                  (λ (x : WriterImpl).
                    let o : Outcome = record { writer = some x; result = true; diagnostics = [] } in
                    o)
                  (settled done pending))
          | no full ↦ device_full (omega (arith, same)) (
              ap (λ (r : OutStream × ℕ × Option String). (flushed w r).result)
                (flush_points_room schema.attributes pending c device (length done) fits fit)
              ∙ flush_ends_fails w (length done + length pending) (flush_stream all)
                  (flush_stream_full all (omega arith)))
        ]
        | no full ↦
            let (m, e) =
              flush_points_full schema.attributes pending c device (length done) fits l
                (omega arith) in
            device_full (omega (arith, same, sizes)) (flushed_fails w _ m e)
      ]

  -- What is true of an outcome after which `done` and `pending` together are all the points given.
  pub data Holding (points : List SpoolPoint) (o : Outcome) : Type 0 where
    holding :
        (done pending : List SpoolPoint)
        → done ++ pending ≡ points
        → All (FitsPoint schema.attributes) pending
        → length (start_bytes tile schema ++ points_bytes done) ≤ total_room device
        → o ≡ record {
          writer = some (writing tile schema limit device stats done pending);
          result = true;
          diagnostics = [];
        }
        → Holding points o
    gave_up :
        device.capacity < length (start_bytes tile schema ++ points_bytes points)
        → o.result ≡ false
        → Holding points o

  types_match-fits :
      (types : List PointAttribute) (values : List SpoolAttributeValue)
      → FitsValues types values
      → (types_match values types ≡ true) × ((length values == length types) ≡ true)
  unfolding types_match
  types_match-fits [] [] h = (refl, refl)
  types_match-fits [] (v ∷ values) h = elim h [ ]
  types_match-fits (a ∷ types) [] h = elim h [ ]
  types_match-fits (a ∷ types) (v ∷ values) (e, h, hs) =
      let (m, l) = types_match-fits types values hs in (ground arith, ground arith)

  Holding-Flushed :
      (done pending points : List SpoolPoint) (o : Outcome)
      → done ++ pending ≡ points
      → Flushed tile schema limit device stats done pending o
      → Holding points o
  Holding-Flushed done pending points o e (flushed_all fits h) =
      holding points [] (append-nil points) tt
        (subst (λ ps. length (start_bytes tile schema ++ points_bytes ps) ≤ total_room device) e
          (omega (arith, fits)))
        (subst
          (λ ps. o ≡ record {
            writer = some (writing tile schema limit device stats ps []);
            result = true;
            diagnostics = [];
          })
          e h)
  Holding-Flushed done pending points o e (device_full full h) =
      gave_up
        (subst (λ ps. device.capacity < length (start_bytes tile schema ++ points_bytes ps)) e full)
        h

  one_more :
      (done pending : List SpoolPoint) (p : SpoolPoint)
      → record (writing tile schema limit device stats done pending) {
        buffered = length pending * record_size schema.attributes + record_size schema.attributes;
        points = pending ++ p ∷ [];
      }
        ≡ writing tile schema limit device stats done (pending ++ p ∷ [])
  one_more done pending p = cc (
      more (length pending) (length (pending ++ p ∷ [])) (record_size schema.attributes)
        (length-append pending (p ∷ [])))
    where
      more : (a b c : ℕ) → b ≡ a + 1 → a * c + c ≡ b * c
      more a b c h = rw h (omega arith)

  pub append_writing :
      (done pending : List SpoolPoint) (p : SpoolPoint)
      → All (FitsPoint schema.attributes) pending
      → FitsPoint schema.attributes p
      → length (start_bytes tile schema ++ points_bytes done) ≤ total_room device
      → Holding
          ((done ++ pending) ++ p ∷ [])
          (writer_append (some (writing tile schema limit device stats done pending)) p)
  unfolding writer_append append_open
  append_writing done pending p fits f l =
      let (m, e) = types_match-fits schema.attributes p.attributes f.2 in
      let all_fit = All-append (FitsPoint schema.attributes) pending (p ∷ []) fits (f, tt) in
      let size = length pending * record_size schema.attributes + record_size schema.attributes in
      let same = append_assoc done pending (p ∷ []) in
      elim (Bool-cases (leb limit size)) [
        | inl full ↦
            rw (e, m, full, one_more done pending p)
              (Holding-Flushed done (pending ++ p ∷ []) _ _ (sym same)
                (flush_writing done (pending ++ p ∷ []) all_fit l))
        | inr room ↦
            rw (e, m, room, one_more done pending p)
              (holding done (pending ++ p ∷ []) (sym same) all_fit l refl)
      ]
