-- ===== src/Spool/Reader/Loop.antt =====
-- `while (reader.ReadNext(point, diagnostics))` over a whole spool: every point once, in order, and
-- then completion.
use usd_pointcloud_plugins.Prelude.{
  ℕ, suc, ◌+◌, ◌-◌, ◌≤◌, ◌<◌, ◌≡◌, refl, sym, ap, ◌∙◌, subst, true, false, ltb, ◌==◌, List, [], ◌∷◌,
  ◌++◌, Bytes, length, length-append, append_assoc, append-nil, All, arith, Option, none, some,
  eqb_refl,
}
use usd_pointcloud_plugins.Prelude.Decimal.{IsU64}
use usd_pointcloud_plugins.Core.Diagnostic.{Diagnostic}
use usd_pointcloud_plugins.Spool.Stream.{at}
use usd_pointcloud_plugins.Spool.Schema.{SpoolSchema, SpoolPoint, record_size}
use usd_pointcloud_plugins.Spool.Layout.{point_bytes, FitsPoint, points_bytes, footer_bytes}
use usd_pointcloud_plugins.Spool.Reader.{
  ReaderImpl, Reader, read_next, read_next_open, read_record, point_read, read_end, footer_read,
  next_round, count_read, read_points,
}
use usd_pointcloud_plugins.Spool.Reader.Fields.{read_point-Parses, read_footer-Parses}
use usd_pointcloud_plugins.Spool.Reader.Sizes.{length-point_bytes, record_size-pos}

-- A reader between two points, at `pos`, with `rest` before it.
abbrev pub reading : SpoolSchema → ℕ → Bytes → ℕ → ℕ → ℕ → Option ℕ → ReaderImpl
reading schema pos rest data_end count n stats = record {
  stream = at pos rest;
  schema = schema;
  point_count = count;
  points_read = n;
  data_end = data_end;
  record_size = record_size schema.attributes;
  bytes_read = stats;
  complete = false;
}

read_next_point :
    (schema : SpoolSchema) (p : SpoolPoint) (pos : ℕ) (rest : Bytes) (data_end count n : ℕ)
    (stats : Option ℕ)
    → FitsPoint schema.attributes p
    → pos + record_size schema.attributes ≤ data_end
    → let r = reading schema pos (point_bytes p ++ rest) data_end count n stats in
      let s = at (pos + length (point_bytes p)) rest in
      read_next (some r) ≡ record {
        reader = some (
            reading schema
              (pos + length (point_bytes p))
              rest
              data_end
              count
              (n + 1)
              (count_read r s));
        result = some p;
        diagnostics = [];
      }
unfolding read_next read_next_open read_record point_read
read_next_point schema p pos rest data_end count n stats f room = rw (
  not_over pos data_end (omega arith),
  not_at_end pos data_end (omega (arith, record_size-pos schema.attributes)),
  enough pos data_end (record_size schema.attributes) room,
  (read_point-Parses schema.attributes p f).run pos rest,
)
  where
    not_over : (a b : ℕ) → a ≤ b → ltb b a ≡ false
    not_over a b h = ground arith

    not_at_end : (a b : ℕ) → a < b → (a == b) ≡ false
    not_at_end a b h = ground arith

    enough : (a b c : ℕ) → a + c ≤ b → ltb (b - a) c ≡ false
    enough a b c h = ground arith

not_past : (a : ℕ) → ltb a a ≡ false
not_past a = ground arith

footer_taken :
    (schema : SpoolSchema) (pos : ℕ) (count n : ℕ) (stats : Option ℕ)
    → IsU64 n
    → (r : ReaderImpl) × (read_end (reading schema pos (footer_bytes n) pos count n stats)
        ≡ record { reader = some r; result = none; diagnostics = [] })
      × (r.complete ≡ true)
      × (r.point_count ≡ n)
unfolding read_end footer_read
footer_taken schema pos count n stats h = (
  _,
  ap (footer_read (reading schema pos (footer_bytes n) pos count n stats))
      (rw (append-nil (footer_bytes n)) at ((read_footer-Parses n h).run pos [])),
  refl,
  refl,
)

read_next_end :
    (schema : SpoolSchema) (pos : ℕ) (count n : ℕ) (stats : Option ℕ)
    → IsU64 n
    → (r : ReaderImpl) × (read_next (some (reading schema pos (footer_bytes n) pos count n stats))
        ≡ record { reader = some r; result = none; diagnostics = [] })
      × (r.complete ≡ true)
      × (r.point_count ≡ n)
unfolding read_next read_next_open read_end footer_read
read_next_end schema pos count n stats h =
    let (r, e, c, k) = footer_taken schema pos count n stats h in
    (r, rw (not_past pos, eqb_refl pos) e, c, k)

abbrev pub EndsAt : SpoolSchema → List SpoolPoint → ℕ → ℕ → ℕ → ℕ → ℕ → Option ℕ → Type 0
EndsAt schema points pos data_end count n total stats =
    (r : ReaderImpl) × ◌≡◌ {A = List SpoolPoint × Reader × List Diagnostic}
      (read_points (suc (length points)) (
        some
          (reading schema pos (points_bytes points ++ footer_bytes total) data_end count n stats)))
      (points, some r, [])
    × (r.complete ≡ true)
    × (r.point_count ≡ total)

stop_round :
    (fuel : ℕ) (x : ReaderImpl) (r : ReaderImpl)
    → read_next (some x) ≡ record { reader = some r; result = none; diagnostics = [] }
    → ◌≡◌ {A = List SpoolPoint × Reader × List Diagnostic}
        (read_points (suc fuel) (some x))
        ([], some r, [])
unfolding read_points next_round
stop_round fuel x r e = ap (next_round (read_points fuel)) e

point_round :
    (fuel : ℕ) (x y r : ReaderImpl) (p : SpoolPoint) (points : List SpoolPoint)
    → read_next (some x) ≡ record { reader = some y; result = some p; diagnostics = [] }
    → ◌≡◌ {A = List SpoolPoint × Reader × List Diagnostic}
        (read_points fuel (some y))
        (points, some r, [])
    → ◌≡◌ {A = List SpoolPoint × Reader × List Diagnostic}
        (read_points (suc fuel) (some x))
        (p ∷ points, some r, [])
unfolding read_points next_round
point_round fuel x y r p points e h =
    ap (next_round (read_points fuel)) e
    ∙ ap
        (λ (t : List SpoolPoint × Reader × List Diagnostic).
          let u : List SpoolPoint × Reader × List Diagnostic = (p ∷ t.0, t.1, t.2) in u)
        h

-- From a reader in front of `points` and the footer.
pub read_points-reading :
    (schema : SpoolSchema) (points : List SpoolPoint) (pos data_end count n total : ℕ)
    (stats : Option ℕ)
    → All (FitsPoint schema.attributes) points
    → pos + length (points_bytes points) ≡ data_end
    → n + length points ≡ total
    → IsU64 total
    → EndsAt schema points pos data_end count n total stats
unfolding points_bytes
read_points-reading schema [] pos data_end count n total stats fits e t u =
    let at_end : pos ≡ data_end = omega (arith, e) in
    let all_read : n ≡ total = omega (arith, t) in
    subst (λ k. EndsAt schema [] pos k count n total stats) at_end
      (subst (λ k. EndsAt schema [] pos pos count n k stats) all_read
        (let (r, stop, c, k) =
            read_next_end schema pos count n stats (subst IsU64 (sym all_read) u) in
          (r, stop_round 0 _ r stop, c, k)))
read_points-reading schema (p ∷ points) pos data_end count n total stats (f, fs) e t u =
    let size = length (point_bytes p) in
    let rest = points_bytes points ++ footer_bytes total in
    let (r, h, c, k) =
      read_points-reading schema points (pos + size) data_end count (n + 1) total
        (count_read (reading schema pos (point_bytes p ++ rest) data_end count n stats)
          (at (pos + size) rest))
        fs
        (sizes pos size (length (points_bytes points))
          (length (point_bytes p ++ points_bytes points)) data_end
          (length-append (point_bytes p) (points_bytes points)) e)
        (omega (arith, t)) u in
    (
      r,
      rw (append_assoc (point_bytes p) (points_bytes points) (footer_bytes total)) (
          point_round (suc (length points)) _ _ r p points
            (read_next_point schema p pos rest data_end count n stats f (
              room pos (length (points_bytes points))
                (length (point_bytes p ++ points_bytes points)) data_end size
                (record_size schema.attributes)
                (length-append (point_bytes p) (points_bytes points)) e
                (length-point_bytes schema.attributes p f)))
            h),
      c,
      k,
    )
  where
    sizes : (a b c d z : ℕ) → d ≡ b + c → a + d ≡ z → a + b + c ≡ z
    sizes a b c d z h k = omega arith

    room : (a c d z b w : ℕ) → d ≡ b + c → a + d ≡ z → b ≡ w → a + w ≤ z
    room a c d z b w h k m = omega arith
