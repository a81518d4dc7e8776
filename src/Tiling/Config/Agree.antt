-- ===== src/Tiling/Config/Agree.antt =====
-- Validation of a configuration reports an error exactly when it refuses.
use usd_pointcloud_plugins.Prelude.{◌≡◌, is_empty, arith}
use usd_pointcloud_plugins.Core.Float64.{lt_f64, le_f64}
use usd_pointcloud_plugins.Tiling.Config.{
  TileGridConfig, validate_tile_grid_config, grid_config_is_valid, grid_config_errors,
  PointBudgetConfig, validate_point_budget_config, budget_config_is_valid, budget_config_errors,
}

-- A budget configuration is refused exactly when an error is added.
pub validate_point_budget_config_reports :
    (c : PointBudgetConfig)
    → (validate_point_budget_config c).0 ≡ is_empty (validate_point_budget_config c).1
unfolding validate_point_budget_config budget_config_is_valid budget_config_errors
validate_point_budget_config_reports c = ground arith

-- A grid configuration is refused exactly when an error is added.
pub validate_tile_grid_config_reports :
    (c : TileGridConfig)
    → (validate_tile_grid_config c).0 ≡ is_empty (validate_tile_grid_config c).1
unfolding validate_tile_grid_config grid_config_is_valid grid_config_errors le_f64 lt_f64
validate_tile_grid_config_reports c = ground arith
