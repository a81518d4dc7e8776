-- ===== src/Tiling/Ids.antt =====
-- The order and the equality of tile identities in Tiling.cpp.
pub mod Order
use usd_pointcloud_plugins.Prelude.{ℕ, Bool, false, not, ◌&&◌, if◌then◌else◌, List, [], ◌∷◌}
use usd_pointcloud_plugins.Prelude.Int.{ℤ, pos, eqb_ℤ, ltb_ℤ}
use usd_pointcloud_plugins.Core.TileId.{TileId}

unfoldable pub tile_id_less : TileId → TileId → Bool
tile_id_less l r =
    if not (eqb_ℤ l.level r.level)
    then ltb_ℤ l.level r.level
    else (if not (eqb_ℤ l.x r.x)
        then ltb_ℤ l.x r.x
        else (if not (eqb_ℤ l.y r.y) then ltb_ℤ l.y r.y else ltb_ℤ l.z r.z))

unfoldable pub tile_id_equal : TileId → TileId → Bool
tile_id_equal l r = eqb_ℤ l.level r.level && eqb_ℤ l.x r.x && eqb_ℤ l.y r.y && eqb_ℤ l.z r.z

-- The identities of a quadtree, whose fields are never negative.
abbrev pub tile_at : ℕ → ℕ → ℕ → TileId
tile_at level x y = record { level = pos level; x = pos x; y = pos y; z = pos 0 }

-- `std::lower_bound` for `id`, with the test that follows it: whether the first element that is not less
-- is there and equals `id`.
unfoldable pub first_not_less_equals {ℓ} :
    {A : Type ℓ} → (A → A → Bool) → (A → A → Bool) → A → List A → Bool
first_not_less_equals less equal id [] = false
first_not_less_equals less equal id (a ∷ l) =
    if less a id then first_not_less_equals less equal id l else equal a id
