-- ===== src/Tiling/Config.antt =====
-- The configurations of Tiling.cpp and their validation.
pub mod Agree
use usd_pointcloud_plugins.Prelude.{
  ℕ, Bool, not, ◌&&◌, ◌||◌, if◌then◌else◌, ltb, leb, ◌==◌, List, [], ◌∷◌, ◌++◌, is_empty, String,
}
use usd_pointcloud_plugins.Prelude.Int.{ℤ, pos, leb_ℤ, ltb_ℤ}
use usd_pointcloud_plugins.Core.Float64.{is_finite, lt_f64, le_f64, zero_bits}
use usd_pointcloud_plugins.Core.Diagnostic.{Diagnostic, DiagnosticCode, an_error}

pub record TileGridConfig : Type 0 where
  pub tile_size : ℕ
  pub level : ℤ

unfoldable pub grid_config_is_valid : TileGridConfig → Bool
grid_config_is_valid c =
    leb_ℤ (pos 0) c.level && is_finite c.tile_size && lt_f64 zero_bits c.tile_size

-- `if (bad) AddError(...)`, which goes on.
abbrev pub error_if : Bool → DiagnosticCode → String → List Diagnostic
error_if bad c m = if bad then an_error c m ∷ [] else []

-- The errors that are added; the function returns the validity.
unfoldable pub grid_config_errors : TileGridConfig → List Diagnostic
grid_config_errors c =
    error_if (not (is_finite c.tile_size) || le_f64 c.tile_size zero_bits)
      DiagnosticCode.invalid_point_tile "tile size must be finite and greater than zero"
    ++ error_if (ltb_ℤ c.level (pos 0)) DiagnosticCode.invalid_point_tile_id
        "tile level must not be negative"

unfoldable pub validate_tile_grid_config : TileGridConfig → Bool × List Diagnostic
validate_tile_grid_config c = (grid_config_is_valid c, grid_config_errors c)

pub record PointBudgetConfig : Type 0 where
  pub max_points_per_tile : ℕ
  pub min_points_per_tile : ℕ
  pub max_depth : ℤ

abbrev pub max_point_budget_depth : ℕ
max_point_budget_depth = 31

unfoldable pub budget_config_is_valid : PointBudgetConfig → Bool
budget_config_is_valid c =
    ltb 0 c.max_points_per_tile
    && leb c.min_points_per_tile c.max_points_per_tile
    && leb_ℤ (pos 0) c.max_depth
    && leb_ℤ c.max_depth (pos max_point_budget_depth)

unfoldable pub budget_config_errors : PointBudgetConfig → List Diagnostic
budget_config_errors c =
    error_if (c.max_points_per_tile == 0) DiagnosticCode.invalid_point_tile
      "maximum points per tile must be greater than zero"
    ++ (error_if (ltb c.max_points_per_tile c.min_points_per_tile) DiagnosticCode.invalid_point_tile
          "minimum points per tile must not exceed the maximum"
        ++ (error_if (ltb_ℤ c.max_depth (pos 0)) DiagnosticCode.invalid_point_tile_id
              "maximum tile depth must not be negative"
            ++ error_if (ltb_ℤ (pos max_point_budget_depth) c.max_depth)
                DiagnosticCode.invalid_point_tile_id
                "maximum tile depth exceeds the supported planner depth"))

unfoldable pub validate_point_budget_config : PointBudgetConfig → Bool × List Diagnostic
validate_point_budget_config c = (budget_config_is_valid c, budget_config_errors c)
