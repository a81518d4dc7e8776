-- ===== src/Spool/Writer/Flush.antt =====
-- `Flush` on a device with room for the points, and on one without.
use native.Mathlib.Decide.{dec_le}
use usd_pointcloud_plugins.Prelude.{
  ℕ, ◌+◌, ◌≤◌, ◌<◌, ◌≡◌, sym, ap, ◌∙◌, List, [], ◌∷◌, ◌++◌, Bytes, length, length-append,
  append-nil, append_assoc, All, arith, Option, none, some, String,
}
use usd_pointcloud_plugins.Cloud.Attribute.{PointAttribute}
use usd_pointcloud_plugins.Spool.Stream.{Device, total_room, OutStream, write_bytes}
use usd_pointcloud_plugins.Spool.Stream.Laws.{write_bytes-append}
use usd_pointcloud_plugins.Spool.Schema.{SpoolPoint}
use usd_pointcloud_plugins.Spool.Layout.{
  vec_bytes, values_bytes, point_bytes, FitsPoint, points_bytes,
}
use usd_pointcloud_plugins.Spool.Writer.{write_vec, flush_points}
use usd_pointcloud_plugins.Spool.Writer.Fields.{
  on, write_bytes_room, write_bytes_full, room_first, room_then, full_then, write_vec-bytes,
  write_attributes_room, write_attributes_full,
}

abbrev positions : SpoolPoint → Bytes
positions p = vec_bytes p.source_position ++ vec_bytes p.stage_position

positions_written :
    (p : SpoolPoint) (s : OutStream)
    → write_vec p.stage_position (write_vec p.source_position s) ≡ write_bytes s (positions p)
positions_written p s =
    rw (write_vec-bytes p.source_position s, write_vec-bytes p.stage_position)
      (write_bytes-append s _ _)

point_parts : (p : SpoolPoint) → point_bytes p ≡ positions p ++ values_bytes p.attributes
unfolding point_bytes
point_parts p = sym (
    append_assoc (vec_bytes p.source_position) (vec_bytes p.stage_position)
      (values_bytes p.attributes))

pub flush_points_room :
    (types : List PointAttribute) (points : List SpoolPoint) (c : Bytes) (k : Device) (n : ℕ)
    → All (FitsPoint types) points
    → length c + length (points_bytes points) ≤ total_room k
    → ◌≡◌ {A = OutStream × ℕ × Option String}
        (flush_points types points (on c k) n)
        (on (c ++ points_bytes points) k, n + length points, none)
unfolding flush_points points_bytes
flush_points_room types [] c k n h r =
    rw (append-nil c)
      (ap (λ (m : ℕ). let t : OutStream × ℕ × Option String = (on c k, m, none) in t) (omega arith))
flush_points_room types (p ∷ points) c k n (h, hs) r =
    let vs = values_bytes p.attributes in
    let cs = points_bytes points in
    let r1 = room_first c k (point_bytes p) cs r in
    let r2 = parts p (λ bs. length c + length bs ≤ total_room k) r1 in
    rw
      (
        positions_written p (on c k),
        write_bytes_room c k (positions p) (room_first c k (positions p) vs r2),
        write_attributes_room types p.attributes (c ++ positions p) k h.2
            (room_then c k (positions p) vs r2),
        append_assoc c (positions p) vs,
        ← point_parts p,
        ← append_assoc c (point_bytes p) cs,
      )
      (flush_points_room types points (c ++ point_bytes p) k (n + 1) hs
          (room_then c k (point_bytes p) cs r)
        ∙ ap
            (λ (m : ℕ).
              let t : OutStream × ℕ × Option String =
                (on ((c ++ point_bytes p) ++ cs) k, m, none) in
              t)
            (omega arith))
  where
    parts :
        (q : SpoolPoint) (P : Bytes → Type 0)
        → P (point_bytes q)
        → P (positions q ++ values_bytes q.attributes)
    parts q P t = rw (← point_parts q) t

pub flush_points_full :
    (types : List PointAttribute) (points : List SpoolPoint) (c : Bytes) (k : Device) (n : ℕ)
    → All (FitsPoint types) points
    → length c ≤ total_room k
    → total_room k < length c + length (points_bytes points)
    → (m : String) × ((flush_points types points (on c k) n).2 ≡ some m)
unfolding flush_points points_bytes
flush_points_full types [] c k n h l r = absurd (omega arith)
flush_points_full types (p ∷ points) c k n (h, hs) l r =
    let vs = values_bytes p.attributes in
    let cs = points_bytes points in
    elim (dec_le (length c + length (positions p)) (total_room k)) [
      | yes fits ↦ elim (dec_le (length (c ++ positions p) + length vs) (total_room k)) [
        | yes fit_values ↦
            let (m, e) =
              flush_points_full types points ((c ++ positions p) ++ vs) k (n + 1) hs
                (omega (arith, length-append (c ++ positions p) vs))
                (full_then (c ++ positions p) k vs cs (rest_full p points c k r)) in
            (
              m,
              rw
                  (
                    positions_written p (on c k),
                    write_bytes_room c k (positions p) fits,
                    write_attributes_room types p.attributes (c ++ positions p) k h.2 fit_values,
                  )
                  e,
            )
        | no full ↦ (
          "unable to write tile spool attribute",
          rw (
            positions_written p (on c k),
            write_bytes_room c k (positions p) fits,
            write_attributes_full types p.attributes (c ++ positions p) k h.2
                (omega (arith, length-append c (positions p))) (omega arith),
          ),
        )
      ]
      | no full ↦ (
        "unable to write tile spool point",
        rw (positions_written p (on c k), write_bytes_full c k (positions p) (omega arith)),
      )
    ]
  where
    rest_full :
        (q : SpoolPoint) (points : List SpoolPoint) (c : Bytes) (k : Device)
        → total_room k < length c + length (point_bytes q ++ points_bytes points)
        → total_room k
          < length (c ++ positions q) + length (values_bytes q.attributes ++ points_bytes points)
    rest_full q points c k t = omega (
      arith,
      length-append (point_bytes q) (points_bytes points),
      ap length (point_parts q),
      length-append (positions q) (values_bytes q.attributes),
      length-append (values_bytes q.attributes) (points_bytes points),
      length-append c (positions q),
    )
