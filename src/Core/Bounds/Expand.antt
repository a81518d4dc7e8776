-- ===== src/Core/Bounds/Expand.antt =====
-- What `Expand` does to bounds: they grow, they hold every finite point put in, and they turn valid
-- with the first finite point.
use usd_pointcloud_plugins.Prelude.{
  ℕ, true, false, ◌&&◌, ◌≡◌, ◌⊎◌, inl, inr, refl, List, [], ◌∷◌, any_of, arith, Bool-cases,
  and_true,
}
use usd_pointcloud_plugins.Core.Float64.{
  is_finite, le_f64, lt_f64, min_f64, max_f64, order_key, infinity_bits, negative_infinity,
}
use usd_pointcloud_plugins.Core.Bounds.{
  Vec3d, SpatialBounds, vec_is_finite, empty_bounds, bounds_is_valid, expand, expand_all,
}

-- One axis that holds nothing yet, or a proper interval.
abbrev pub IsBlank : ℕ → ℕ → Type 0
IsBlank lo hi = (lo ≡ infinity_bits) × (hi ≡ negative_infinity)

abbrev pub IsSpan : ℕ → ℕ → Type 0
IsSpan lo hi = (is_finite lo ≡ true) × (is_finite hi ≡ true) × (le_f64 lo hi ≡ true)

IsSpan-step :
    (lo hi p : ℕ)
    → IsBlank lo hi ⊎ IsSpan lo hi
    → is_finite p ≡ true
    → IsSpan (min_f64 lo p) (max_f64 hi p)
unfolding min_f64 max_f64 le_f64 lt_f64 order_key
IsSpan-step lo hi p (inl h) f = ground arith
IsSpan-step lo hi p (inr h) f = ground arith

-- A span keeps what it held, and holds the point.
pub span_grows :
    (lo hi p : ℕ)
    → IsBlank lo hi ⊎ IsSpan lo hi
    → is_finite p ≡ true
    → (le_f64 (min_f64 lo p) lo ≡ true)
      × (le_f64 hi (max_f64 hi p) ≡ true)
      × (le_f64 (min_f64 lo p) p ≡ true)
      × (le_f64 p (max_f64 hi p) ≡ true)
unfolding min_f64 max_f64 le_f64 lt_f64 order_key
span_grows lo hi p (inl h) f = ground arith
span_grows lo hi p (inr h) f = ground arith

blank_not_finite : (lo hi : ℕ) → IsBlank lo hi → is_finite lo ≡ false
blank_not_finite lo hi h = ground arith

-- Bounds that hold nothing yet, or a box.
pub data Shape (b : SpatialBounds) : Type 0 where
  blank :
      IsBlank b.minimum.x b.maximum.x
      → IsBlank b.minimum.y b.maximum.y
      → IsBlank b.minimum.z b.maximum.z
      → Shape b
  box :
      IsSpan b.minimum.x b.maximum.x
      → IsSpan b.minimum.y b.maximum.y
      → IsSpan b.minimum.z b.maximum.z
      → Shape b

abbrev pub IsBox : SpatialBounds → Type 0
IsBox b =
    IsSpan b.minimum.x b.maximum.x × IsSpan b.minimum.y b.maximum.y × IsSpan b.minimum.z b.maximum.z

pub empty_bounds-Shape : Shape empty_bounds
unfolding empty_bounds
empty_bounds-Shape = blank (refl, refl) (refl, refl) (refl, refl)

bounds_is_valid-box : (b : SpatialBounds) → IsBox b → bounds_is_valid b ≡ true
unfolding bounds_is_valid
bounds_is_valid-box b ((a0, a1, a2), (b0, b1, b2), (c0, c1, c2)) =
    rw (a0, a1, a2, b0, b1, b2, c0, c1, c2)

pub vec_parts :
    (p : Vec3d)
    → vec_is_finite p ≡ true
    → (is_finite p.x ≡ true) × (is_finite p.y ≡ true) × (is_finite p.z ≡ true)
unfolding vec_is_finite
vec_parts p h =
    let (xy, z) = and_true (is_finite p.x && is_finite p.y) (is_finite p.z) h in
    let (x, y) = and_true (is_finite p.x) (is_finite p.y) xy in (x, y, z)

pub axes :
    (b : SpatialBounds)
    → Shape b
    → (IsBlank b.minimum.x b.maximum.x ⊎ IsSpan b.minimum.x b.maximum.x)
      × (IsBlank b.minimum.y b.maximum.y ⊎ IsSpan b.minimum.y b.maximum.y)
      × (IsBlank b.minimum.z b.maximum.z ⊎ IsSpan b.minimum.z b.maximum.z)
axes b (blank x y z) = (inl x, inl y, inl z)
axes b (box x y z) = (inr x, inr y, inr z)

expand_finite-IsBox :
    (b : SpatialBounds) (p : Vec3d) → Shape b → vec_is_finite p ≡ true → IsBox (expand b p)
unfolding expand
expand_finite-IsBox b p s h =
    let (fx, fy, fz) = vec_parts p h in
    let (ax, ay, az) = axes b s in
    rw h (
      IsSpan-step b.minimum.x b.maximum.x p.x ax fx,
      IsSpan-step b.minimum.y b.maximum.y p.y ay fy,
      IsSpan-step b.minimum.z b.maximum.z p.z az fz,
    )

pub expand_non_finite : (b : SpatialBounds) (p : Vec3d) → vec_is_finite p ≡ false → expand b p ≡ b
unfolding expand
expand_non_finite b p h = rw h

pub expand-Shape : (b : SpatialBounds) (p : Vec3d) → Shape b → Shape (expand b p)
expand-Shape b p s = elim (Bool-cases (vec_is_finite p)) [
  | inl h ↦ let (x, y, z) = expand_finite-IsBox b p s h in box x y z
  | inr h ↦ rw (expand_non_finite b p h) s
]

pub expand_all-Shape : (b : SpatialBounds) (ps : List Vec3d) → Shape b → Shape (expand_all b ps)
unfolding expand_all
expand_all-Shape b [] s = s
expand_all-Shape b (p ∷ ps) s = expand_all-Shape (expand b p) ps (expand-Shape b p s)

expand_all-IsBox : (b : SpatialBounds) (ps : List Vec3d) → IsBox b → IsBox (expand_all b ps)
unfolding expand_all
expand_all-IsBox b [] h = h
expand_all-IsBox b (p ∷ ps) h =
    expand_all-IsBox (expand b p) ps (elim (Bool-cases (vec_is_finite p)) [
      | inl f ↦ expand_finite-IsBox b p (box h.0 h.1 h.2) f
      | inr f ↦ rw (expand_non_finite b p f) h
    ])

blank_invalid : (b : SpatialBounds) → IsBlank b.minimum.x b.maximum.x → bounds_is_valid b ≡ false
unfolding bounds_is_valid
blank_invalid b h = rw (blank_not_finite b.minimum.x b.maximum.x h)

-- Bounds collected from nothing are valid exactly when some point was finite.
valid_from_blank :
    (b : SpatialBounds) (ps : List Vec3d)
    → IsBlank b.minimum.x b.maximum.x
    → IsBlank b.minimum.y b.maximum.y
    → IsBlank b.minimum.z b.maximum.z
    → bounds_is_valid (expand_all b ps) ≡ any_of vec_is_finite ps
unfolding expand_all
valid_from_blank b [] x y z = blank_invalid b x
valid_from_blank b (p ∷ ps) x y z = elim (Bool-cases (vec_is_finite p)) [
  | inl f ↦
      rw f (bounds_is_valid-box _ (expand_all-IsBox _ ps (expand_finite-IsBox b p (blank x y z) f)))
  | inr f ↦ rw (f, expand_non_finite b p f) (valid_from_blank b ps x y z)
]

-- The bounds that a stream collects, `Empty()` expanded by every position, are valid exactly when at
-- least one of the positions is finite.
pub bounds_is_valid-expand_all :
    (ps : List Vec3d) → bounds_is_valid (expand_all empty_bounds ps) ≡ any_of vec_is_finite ps
unfolding empty_bounds
bounds_is_valid-expand_all ps = valid_from_blank _ ps (refl, refl) (refl, refl) (refl, refl)
