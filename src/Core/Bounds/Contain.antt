-- ===== src/Core/Bounds/Contain.antt =====
-- Which points bounds hold after `Expand`.
use usd_pointcloud_plugins.Prelude.{ℕ, true, ◌≡◌, inl, inr, List, [], ◌∷◌, All, arith, Bool-cases}
use usd_pointcloud_plugins.Core.Float64.{le_f64, le_f64_trans}
use usd_pointcloud_plugins.Core.Bounds.{
  Vec3d, SpatialBounds, vec_is_finite, empty_bounds, expand, expand_all,
}
use usd_pointcloud_plugins.Core.Bounds.Expand.{
  IsBlank, IsSpan, Shape, blank, box, span_grows, vec_parts, axes, expand_non_finite, expand-Shape,
  empty_bounds-Shape,
}

-- `outer` reaches at least as far as `inner` on every side.
unfoldable pub Covers : SpatialBounds → SpatialBounds → Type 0
Covers outer inner =
    (le_f64 outer.minimum.x inner.minimum.x ≡ true)
    × (le_f64 outer.minimum.y inner.minimum.y ≡ true)
    × (le_f64 outer.minimum.z inner.minimum.z ≡ true)
    × (le_f64 inner.maximum.x outer.maximum.x ≡ true)
    × (le_f64 inner.maximum.y outer.maximum.y ≡ true)
    × (le_f64 inner.maximum.z outer.maximum.z ≡ true)

abbrev pub point_box : Vec3d → SpatialBounds
point_box p = record { minimum = p; maximum = p }

Covers-trans : (a b c : SpatialBounds) → Covers a b → Covers b c → Covers a c
unfolding Covers
Covers-trans a b c (p0, p1, p2, p3, p4, p5) (q0, q1, q2, q3, q4, q5) = (
  le_f64_trans _ _ _ p0 q0,
  le_f64_trans _ _ _ p1 q1,
  le_f64_trans _ _ _ p2 q2,
  le_f64_trans _ _ _ q3 p3,
  le_f64_trans _ _ _ q4 p4,
  le_f64_trans _ _ _ q5 p5,
)

expand_finite-Covers :
    (b : SpatialBounds) (p : Vec3d)
    → Shape b
    → vec_is_finite p ≡ true
    → Covers (expand b p) b × Covers (expand b p) (point_box p)
unfolding Covers expand
expand_finite-Covers b p s h =
    let (fx, fy, fz) = vec_parts p h in
    let (ax, ay, az) = axes b s in
    let (x0, x1, x2, x3) = span_grows b.minimum.x b.maximum.x p.x ax fx in
    let (y0, y1, y2, y3) = span_grows b.minimum.y b.maximum.y p.y ay fy in
    let (z0, z1, z2, z3) = span_grows b.minimum.z b.maximum.z p.z az fz in
    rw h ((x0, y0, z0, x1, y1, z1), (x2, y2, z2, x3, y3, z3))

axis_refl : (lo hi : ℕ) → IsBlank lo hi → (le_f64 lo lo ≡ true) × (le_f64 hi hi ≡ true)
unfolding le_f64
axis_refl lo hi h = ground arith

span_refl : (lo hi : ℕ) → IsSpan lo hi → (le_f64 lo lo ≡ true) × (le_f64 hi hi ≡ true)
unfolding le_f64
span_refl lo hi h = ground arith

Covers-refl : (b : SpatialBounds) → Shape b → Covers b b
unfolding Covers
Covers-refl b (blank x y z) =
    let (x0, x1) = axis_refl _ _ x in
    let (y0, y1) = axis_refl _ _ y in let (z0, z1) = axis_refl _ _ z in (x0, y0, z0, x1, y1, z1)
Covers-refl b (box x y z) =
    let (x0, x1) = span_refl _ _ x in
    let (y0, y1) = span_refl _ _ y in let (z0, z1) = span_refl _ _ z in (x0, y0, z0, x1, y1, z1)

expand-Covers : (b : SpatialBounds) (p : Vec3d) → Shape b → Covers (expand b p) b
expand-Covers b p s = elim (Bool-cases (vec_is_finite p)) [
  | inl h ↦ (expand_finite-Covers b p s h).0
  | inr h ↦ rw (expand_non_finite b p h) (Covers-refl b s)
]

expand_all-Covers : (b : SpatialBounds) (ps : List Vec3d) → Shape b → Covers (expand_all b ps) b
unfolding expand_all
expand_all-Covers b [] s = Covers-refl b s
expand_all-Covers b (p ∷ ps) s =
    Covers-trans _ (expand b p) b (expand_all-Covers (expand b p) ps (expand-Shape b p s))
      (expand-Covers b p s)

abbrev pub HoldsFinite : SpatialBounds → Vec3d → Type 0
HoldsFinite b p = vec_is_finite p ≡ true → Covers b (point_box p)

All-held : (b : SpatialBounds) (ps : List Vec3d) → Shape b → All (HoldsFinite (expand_all b ps)) ps
unfolding expand_all
All-held b [] s = tt
All-held b (p ∷ ps) s = (
  λ f.
      Covers-trans _ (expand b p) (point_box p)
        (expand_all-Covers (expand b p) ps (expand-Shape b p s)) (expand_finite-Covers b p s f).1,
  All-held (expand b p) ps (expand-Shape b p s),
)

-- Bounds that start blank or as a box and are expanded by a list of points keep what they held,
-- and hold every finite point of the list.
pub expand_all_holds :
    (b : SpatialBounds) (ps : List Vec3d)
    → Shape b
    → Covers (expand_all b ps) b × All (HoldsFinite (expand_all b ps)) ps
expand_all_holds b ps s = (expand_all-Covers b ps s, All-held b ps s)

-- Bounds collected from `Empty()` hold every finite point of the list.
pub expand_all-empty_bounds : (ps : List Vec3d) → All (HoldsFinite (expand_all empty_bounds ps)) ps
expand_all-empty_bounds ps = (expand_all_holds empty_bounds ps empty_bounds-Shape).1
