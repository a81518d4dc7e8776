-- ===== src/Tiling/Router/Inside.antt =====
-- Every finite point is inside the bounds that `makeBounds` finds.
use usd_pointcloud_plugins.Prelude.{ℕ, ◌≡◌, refl, true, false, List, [], ◌∷◌, All, arith}
use usd_pointcloud_plugins.Core.Float64.{is_finite, lt_f64, min_f64, max_f64}
use usd_pointcloud_plugins.Core.Bounds.{Vec3d}
use usd_pointcloud_plugins.Tiling.Budget.{Rect, grow_rect, grow_rects, make_bounds}
use usd_pointcloud_plugins.Tiling.Router.{outside}

abbrev pub IsFlatPoint : Vec3d → Type 0
IsFlatPoint p = (is_finite p.x ≡ true) × (is_finite p.y ≡ true)

record IsFiniteRect (r : Rect) : Type 0 where
  min_x : is_finite r.min_x ≡ true
  max_x : is_finite r.max_x ≡ true
  min_y : is_finite r.min_y ≡ true
  max_y : is_finite r.max_y ≡ true

min_step :
    (lo p v : ℕ)
    → is_finite lo ≡ true
    → is_finite p ≡ true
    → (is_finite (min_f64 lo p) ≡ true)
      × (lt_f64 p (min_f64 lo p) ≡ false)
      × (lt_f64 v lo ≡ false → lt_f64 v (min_f64 lo p) ≡ false)
unfolding min_f64 lt_f64
min_step lo p v f g = (ground arith, ground arith, λ h. ground arith)

max_step :
    (hi p v : ℕ)
    → is_finite hi ≡ true
    → is_finite p ≡ true
    → (is_finite (max_f64 hi p) ≡ true)
      × (lt_f64 (max_f64 hi p) p ≡ false)
      × (lt_f64 hi v ≡ false → lt_f64 (max_f64 hi p) v ≡ false)
unfolding max_f64 lt_f64
max_step hi p v f g = (ground arith, ground arith, λ h. ground arith)

grow_rect-IsFiniteRect :
    (r : Rect) (p : Vec3d) → IsFiniteRect r → IsFlatPoint p → IsFiniteRect (grow_rect r p)
unfolding grow_rect
grow_rect-IsFiniteRect r p f g = record {
  min_x = (min_step r.min_x p.x 0 f.min_x g.0).0;
  max_x = (max_step r.max_x p.x 0 f.max_x g.0).0;
  min_y = (min_step r.min_y p.y 0 f.min_y g.1).0;
  max_y = (max_step r.max_y p.y 0 f.max_y g.1).0;
}

grow_rect-inside :
    (r : Rect) (p : Vec3d) → IsFiniteRect r → IsFlatPoint p → outside (grow_rect r p) p ≡ false
unfolding outside grow_rect
grow_rect-inside r p f g =
    rw
      (
        (min_step r.min_x p.x 0 f.min_x g.0).1,
        (max_step r.max_x p.x 0 f.max_x g.0).1,
        (min_step r.min_y p.y 0 f.min_y g.1).1,
        (max_step r.max_y p.y 0 f.max_y g.1).1,
      )
      refl

grow_rect-keeps :
    (r : Rect) (p v : Vec3d)
    → IsFiniteRect r
    → IsFlatPoint p
    → outside r v ≡ false
    → outside (grow_rect r p) v ≡ false
unfolding outside grow_rect
grow_rect-keeps r p v f g h = ground (
  arith,
  (min_step r.min_x p.x v.x f.min_x g.0).2,
  (max_step r.max_x p.x v.x f.max_x g.0).2,
  (min_step r.min_y p.y v.y f.min_y g.1).2,
  (max_step r.max_y p.y v.y f.max_y g.1).2,
)

grow_rects-keeps :
    (r : Rect) (ps : List Vec3d) (v : Vec3d)
    → IsFiniteRect r
    → All IsFlatPoint ps
    → outside r v ≡ false
    → outside (grow_rects r ps) v ≡ false
unfolding grow_rects
grow_rects-keeps r [] v f g h = h
grow_rects-keeps r (p ∷ ps) v f g h =
    grow_rects-keeps (grow_rect r p) ps v (grow_rect-IsFiniteRect r p f g.0) g.1
      (grow_rect-keeps r p v f g.0 h)

grow_rects-inside :
    (r : Rect) (ps : List Vec3d)
    → IsFiniteRect r
    → All IsFlatPoint ps
    → All (λ v. outside (grow_rects r ps) v ≡ false) ps
unfolding grow_rects
grow_rects-inside r [] f g = tt
grow_rects-inside r (p ∷ ps) f g =
    let f' = grow_rect-IsFiniteRect r p f g.0 in
    (
      grow_rects-keeps (grow_rect r p) ps p f' g.1 (grow_rect-inside r p f g.0),
      grow_rects-inside (grow_rect r p) ps f' g.1,
    )

pub make_bounds-inside :
    (p : Vec3d) (ps : List Vec3d)
    → All IsFlatPoint (p ∷ ps)
    → All (λ v. outside (make_bounds p ps) v ≡ false) (p ∷ ps)
unfolding make_bounds
make_bounds-inside p ps f =
    grow_rects-inside _ (p ∷ ps)
      (record { min_x = f.0.0; max_x = f.0.0; min_y = f.0.1; max_y = f.0.1 }) f
