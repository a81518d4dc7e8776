-- ===== src/Core/TileId/Key.antt =====
-- The text of a tile identity tells valid identities apart, so a map keyed by it is a map keyed by
-- identities.
use usd_pointcloud_plugins.Prelude.{
  ℕ, true, ◌≡◌, refl, sym, ap, ◌∙◌, [], ◌∷◌, ◌++◌, Bytes, arith, append-nil,
}
use usd_pointcloud_plugins.Prelude.Int.{ℤ, pos, negsuc, IsI32, IsI64}
use usd_pointcloud_plugins.Prelude.Decimal.{
  decimal_ℤ, read_integer, read_integer-decimal_ℤ, StopsNumber,
}
use usd_pointcloud_plugins.Core.TileId.{TileId, FitsTileId, slash, tile_is_valid, tile_to_string}

-- Reads the form `L<level>/<x>/<y>/<z>`.
read_field : Bytes → ℤ × Bytes
read_field [] = (pos 0, [])
read_field (c ∷ cs) = read_integer cs

read_tile : Bytes → TileId
read_tile text =
    let (l, r1) = read_field text in
    let (x, r2) = read_field r1 in
    let (y, r3) = read_field r2 in
    let (z, r4) = read_field r3 in record { level = l; x = x; y = y; z = z }

IsI32-wide : (z : ℤ) → IsI32 z → IsI64 z
IsI32-wide (pos n) h = omega arith
IsI32-wide (negsuc n) h = omega arith

field_of :
    (c : ℕ) (z : ℤ) (rest : Bytes)
    → IsI64 z
    → StopsNumber rest
    → read_field (c ∷ (decimal_ℤ z ++ rest)) ≡ (z, rest)
unfolding read_field
field_of c z rest h s = read_integer-decimal_ℤ z rest h s

field_end : (c : ℕ) (z : ℤ) → IsI64 z → read_field (c ∷ decimal_ℤ z) ≡ (z, [])
field_end c z h = rw (append-nil (decimal_ℤ z)) at (field_of c z [] h tt)

read_tile-to_string :
    (t : TileId) → FitsTileId t → tile_is_valid t ≡ true → read_tile (tile_to_string t) ≡ t
unfolding read_tile tile_to_string
read_tile-to_string t f v = rw v (
    rw
      (field_of b'L' t.level
        (slash (decimal_ℤ t.x ++ slash (decimal_ℤ t.y ++ slash (decimal_ℤ t.z))))
        (IsI32-wide t.level f.level) refl)
      (rw (field_of b'/' t.x (slash (decimal_ℤ t.y ++ slash (decimal_ℤ t.z))) f.x refl)
        (rw (field_of b'/' t.y (slash (decimal_ℤ t.z)) f.y refl) (rw (field_end b'/' t.z f.z)))))

-- Two valid tile identities with fields in range and the same text are the same identity.
pub tile_to_string-injective :
    (s t : TileId)
    → FitsTileId s
    → FitsTileId t
    → tile_is_valid s ≡ true
    → tile_is_valid t ≡ true
    → tile_to_string s ≡ tile_to_string t
    → s ≡ t
tile_to_string-injective s t fs ft vs vt e =
    sym (read_tile-to_string s fs vs) ∙ ap read_tile e ∙ read_tile-to_string t ft vt
