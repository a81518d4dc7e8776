-- ===== src/Tiling/Grid.antt =====
-- `FixedGridTileRouter` and `ToTileCoordinate` of Tiling.cpp. The floor of the quotient of two doubles,
-- which rounds, is the parameter `floored`.
use usd_pointcloud_plugins.Prelude.{
  ℕ, ◌≡◌, refl, Bool, true, false, not, ◌&&◌, ◌||◌, if◌then◌else◌, Option, none, some, Bool-cases,
  ◌⊎◌, inl, inr, arith,
}
use usd_pointcloud_plugins.Prelude.Int.{ℤ, pos, negsuc, ltb_ℤ, leb_ℤ, is_nonneg}
use usd_pointcloud_plugins.Core.Float64.{is_finite}
use usd_pointcloud_plugins.Core.Bounds.{Vec3d}
use usd_pointcloud_plugins.Core.TileId.{TileId, tile_is_valid}
use usd_pointcloud_plugins.Tiling.Config.{TileGridConfig, grid_config_is_valid}

abbrev pub least_index : ℤ
least_index = negsuc 0x7fff_ffff_ffff_ffff

abbrev pub index_bound : ℤ
index_bound = pos 0x8000_0000_0000_0000

unfoldable pub to_tile_coordinate : (ℕ → ℕ → ℤ) → ℕ → ℕ → Option ℤ
to_tile_coordinate floored coordinate tile_size =
    let index = floored coordinate tile_size in
    if ltb_ℤ index least_index || leb_ℤ index_bound index then none else some index

-- What is left of the tile when a coordinate is out of range: the ones before it, and no level.
unfoldable pub grid_tile : ℤ → Option ℤ → Option ℤ → TileId
grid_tile level none y = record { level = negsuc 0; x = pos 0; y = pos 0; z = pos 0 }
grid_tile level (some x) none = record { level = negsuc 0; x = x; y = pos 0; z = pos 0 }
grid_tile level (some x) (some y) = record { level = level; x = x; y = y; z = pos 0 }

unfoldable pub grid_tile_id : (ℕ → ℕ → ℤ) → TileGridConfig → Vec3d → TileId
grid_tile_id floored c p =
    if not (grid_config_is_valid c) || not (is_finite p.x) || not (is_finite p.y)
    then record { level = negsuc 0; x = pos 0; y = pos 0; z = pos 0 }
    else grid_tile c.level (to_tile_coordinate floored p.x c.tile_size)
        (to_tile_coordinate floored p.y c.tile_size)

abbrev pub is_index : ℤ → Bool
is_index i = leb_ℤ least_index i && ltb_ℤ i index_bound

to_tile_coordinate_lem :
    (floored : ℕ → ℕ → ℤ) (v s : ℕ)
    → to_tile_coordinate floored v s ≡ (if is_index (floored v s) then some (floored v s) else none)
unfolding to_tile_coordinate
to_tile_coordinate_lem floored v s = elim (Bool-cases (is_index (floored v s))) [
  | inl e ↦ ground (arith, e)
  | inr e ↦ ground (arith, e)
]

nonneg_level : (l : ℤ) → leb_ℤ (pos 0) l ≡ true → is_nonneg l ≡ true
nonneg_level (pos n) h = refl
nonneg_level (negsuc n) h = ground arith

valid_level : (c : TileGridConfig) → grid_config_is_valid c ≡ true → is_nonneg c.level ≡ true
unfolding grid_config_is_valid
valid_level c h = nonneg_level c.level (ground arith)

-- The tile for floored quotients that fit or do not fit.
grid_tile_cases :
    (level i j : ℤ) (x_in y_in : Bool)
    → is_nonneg level ≡ true
    → let t = grid_tile level (if x_in then some i else none) (if y_in then some j else none) in
      (tile_is_valid t ≡ (x_in && y_in))
      × ((not (tile_is_valid t) ≡ true) ⊎ (t ≡ record { level = level; x = i; y = j; z = pos 0 }))
unfolding grid_tile tile_is_valid
grid_tile_cases level i j false y_in h = (refl, inl refl)
grid_tile_cases level i j true false h = (refl, inl refl)
grid_tile_cases level i j true true h = (h, inr refl)

-- The router of a fixed grid gives a valid tile exactly for finite points under a valid configuration
-- whose floored quotients both fit 64 bits, and then the tile is that of the configuration's level and
-- of these quotients.
pub grid_tile_id_lem :
    (floored : ℕ → ℕ → ℤ) (c : TileGridConfig) (p : Vec3d)
    → (tile_is_valid (grid_tile_id floored c p) ≡ (
        (grid_config_is_valid c && is_finite p.x && is_finite p.y)
        && (is_index (floored p.x c.tile_size) && is_index (floored p.y c.tile_size))))
      × ((not (tile_is_valid (grid_tile_id floored c p)) ≡ true)
          ⊎ (grid_tile_id floored c p ≡ record {
            level = c.level;
            x = floored p.x c.tile_size;
            y = floored p.y c.tile_size;
            z = pos 0;
          }))
unfolding grid_tile_id tile_is_valid
grid_tile_id_lem floored c p = elim (Bool-cases (grid_config_is_valid c)) [
  | inr e ↦ rw e (refl, inl refl)
  | inl e ↦ elim (Bool-cases (is_finite p.x)) [
    | inr f ↦ rw (e, f) (refl, inl refl)
    | inl f ↦ elim (Bool-cases (is_finite p.y)) [
      | inr g ↦ rw (e, f, g) (refl, inl refl)
      | inl g ↦
          rw
            (
              e,
              f,
              g,
              to_tile_coordinate_lem floored p.x c.tile_size,
              to_tile_coordinate_lem floored p.y c.tile_size,
            )
            (grid_tile_cases c.level (floored p.x c.tile_size) (floored p.y c.tile_size) _ _
              (valid_level c e))
    ]
  ]
]
