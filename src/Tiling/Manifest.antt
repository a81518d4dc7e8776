-- ===== src/Tiling/Manifest.antt =====
-- The tile manifest of Tiling.cpp: the entries, the test of their paths and the validation.
pub mod Sorted
pub mod Once
use usd_pointcloud_plugins.Prelude.{
  ℕ, Bool, true, false, not, ◌&&◌, ◌||◌, if◌then◌else◌, ltb, leb, ◌==◌, List, [], ◌∷◌, Bytes,
  bytes_eq, is_empty, any_of, all_of,
}
use usd_pointcloud_plugins.Prelude.Sort.{sort_by, bytes_less}
use usd_pointcloud_plugins.Core.Bounds.{SpatialBounds, bounds_is_valid}
use usd_pointcloud_plugins.Core.TileId.{TileId, tile_is_valid}
use usd_pointcloud_plugins.Core.Diagnostic.{Diagnostic, DiagnosticCode, an_error}
use usd_pointcloud_plugins.Tiling.Ids.{tile_id_less, tile_id_equal}

abbrev pub contains : ℕ → Bytes → Bool
contains c value = any_of (λ b. b == c) value

-- The path starts with a separator, or with a letter and a colon.
unfoldable pub is_rooted : Bytes → Bool
is_rooted [] = false
is_rooted (a ∷ []) = a == b'/'
is_rooted (a ∷ c ∷ rest) =
    a == b'/' || (((leb b'A' a && leb a b'Z') || (leb b'a' a && leb a b'z')) && c == b':')

-- A character put before the first of the components.
unfoldable pub put_first : ℕ → List Bytes → List Bytes
put_first c [] = (c ∷ []) ∷ []
put_first c (n ∷ ns) = (c ∷ n) ∷ ns

-- The components between the separators. The last is empty if the path ends with one.
unfoldable pub components : Bytes → List Bytes
components [] = [] ∷ []
components (c ∷ cs) = if c == b'/' then [] ∷ components cs else put_first c (components cs)

abbrev pub is_dots : Bytes → Bool
is_dots n = bytes_eq n (b'.' ∷ []) || bytes_eq n (b'.' ∷ b'.' ∷ [])

unfoldable pub is_safe_manifest_path : Bytes → Bool
is_safe_manifest_path value =
    if is_empty value
      || contains b'\\' value
      || contains b'\n' value
      || contains b'\r' value
      || contains b'=' value
    then false
    else (if is_rooted value then false else not (any_of is_dots (components value)))

pub record ManifestEntry : Type 0 where
  pub id : TileId
  pub lod : ℕ
  pub bounds : SpatialBounds
  pub point_count : ℕ
  pub payload_path : Bytes

unfoldable pub manifest_entry_is_valid : ManifestEntry → Bool
manifest_entry_is_valid e =
    tile_is_valid e.id
    && bounds_is_valid e.bounds
    && ltb 0 e.point_count
    && is_safe_manifest_path e.payload_path

unfoldable pub manifest_entry_less : ManifestEntry → ManifestEntry → Bool
manifest_entry_less l r =
    if tile_id_less l.id r.id
    then true
    else (if tile_id_less r.id l.id
        then false
        else (if not (l.lod == r.lod)
            then ltb l.lod r.lod
            else bytes_less l.payload_path r.payload_path))

unfoldable pub same_level_of_tile : ManifestEntry → ManifestEntry → Bool
same_level_of_tile l r = tile_id_equal l.id r.id && l.lod == r.lod

-- The loop over neighbours in the sorted entries, from the second entry on.
unfoldable pub neighbours_alike : ManifestEntry → List ManifestEntry → Bool
neighbours_alike previous [] = false
neighbours_alike previous (current ∷ rest) =
    same_level_of_tile previous current || neighbours_alike current rest

unfoldable pub some_neighbours_alike : List ManifestEntry → Bool
some_neighbours_alike [] = false
some_neighbours_alike (e ∷ es) = neighbours_alike e es

unfoldable pub validate_point_tile_manifest : List ManifestEntry → Bool × List Diagnostic
validate_point_tile_manifest entries =
    if not (all_of manifest_entry_is_valid entries)
    then (
      false,
      an_error DiagnosticCode.invalid_point_tile "tile manifest contains an invalid entry" ∷ [],
    )
    else (if some_neighbours_alike (sort_by manifest_entry_less entries)
        then (
          false,
          an_error DiagnosticCode.invalid_point_tile
                "tile manifest contains duplicate tile LOD entries"
              ∷ [],
        )
        else (true, []))
