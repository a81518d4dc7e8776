-- ===== src/Tiling/Router/Under.antt =====
-- The identities below a node of the quadtree: halved often enough they give the node's.
use usd_pointcloud_plugins.Prelude.{
  ℕ, zero, suc, ◌+◌, ◌*◌, ◌/◌, ◌<◌, ◌≡◌, refl, sym, ap, ◌∙◌, true, arith,
}
use usd_pointcloud_plugins.Core.TileId.{TileId}
use usd_pointcloud_plugins.Tiling.Ids.{tile_id_equal, tile_at}
use usd_pointcloud_plugins.Tiling.Budget.{Quarter, east_bit, north_bit}

unfoldable pub halves : ℕ → ℕ → ℕ
halves zero n = n
halves (suc k) n = halves k n / 2

pub record Under (depth x y : ℕ) (t : TileId) : Type 0 where
  pub down : ℕ
  pub x_below : ℕ
  pub y_below : ℕ
  pub is_tile : t ≡ tile_at (depth + down) x_below y_below
  pub x_above : halves down x_below ≡ x
  pub y_above : halves down y_below ≡ y

pub Under-self : (depth x y : ℕ) → Under depth x y (tile_at depth x y)
unfolding halves
Under-self depth x y = record {
  down = 0;
  x_below = x;
  y_below = y;
  is_tile = ap (λ d. tile_at d x y) (omega arith);
  x_above = refl;
  y_above = refl;
}

pub Under-child :
    (q : Quarter) (depth x y : ℕ) (t : TileId)
    → Under (suc depth) (x * 2 + east_bit q) (y * 2 + north_bit q) t
    → Under depth x y t
unfolding halves
Under-child q depth x y t u = record {
  down = suc u.down;
  x_below = u.x_below;
  y_below = u.y_below;
  is_tile = u.is_tile ∙ ap (λ d. tile_at d u.x_below u.y_below) (omega arith);
  x_above = ap (λ n. n / 2) u.x_above ∙ half x (east_bit q) (small_east q);
  y_above = ap (λ n. n / 2) u.y_above ∙ half y (north_bit q) (small_north q);
}
  where
    half : (n b : ℕ) → b < 2 → (n * 2 + b) / 2 ≡ n
    half n b h = omega arith

    small_east : (q : Quarter) → east_bit q < 2
    small_east q = ground arith

    small_north : (q : Quarter) → north_bit q < 2
    small_north q = ground arith

tile_id_equal-tile_at :
    (l m a b c d : ℕ)
    → tile_id_equal (tile_at l a b) (tile_at m c d) ≡ true
    → (l ≡ m) × (a ≡ c) × (b ≡ d)
unfolding tile_id_equal
tile_id_equal-tile_at l m a b c d e = (ground arith, ground arith, ground arith)

-- Equal identities are below one node of a level.
pub Under-equal :
    (depth a b c d : ℕ) (t u : TileId)
    → Under depth a b t
    → Under depth c d u
    → tile_id_equal t u ≡ true
    → (a ≡ c) × (b ≡ d)
Under-equal depth a b c d t u ut uu e =
    let left = tile_at (depth + ut.down) ut.x_below ut.y_below in
    let right = tile_at (depth + uu.down) uu.x_below uu.y_below in
    let swapped = ap (λ v. tile_id_equal v u) ut.is_tile ∙ ap (tile_id_equal left) uu.is_tile in
    let same =
      tile_id_equal-tile_at (depth + ut.down) (depth + uu.down) ut.x_below ut.y_below uu.x_below
        uu.y_below (sym swapped ∙ e) in
    let level : ut.down ≡ uu.down = omega (arith, same.0) in
    (
      sym ut.x_above
          ∙ ap (λ n. halves n ut.x_below) level
          ∙ ap (halves uu.down) same.1
          ∙ uu.x_above,
      sym ut.y_above
          ∙ ap (λ n. halves n ut.y_below) level
          ∙ ap (halves uu.down) same.2
          ∙ uu.y_above,
    )
