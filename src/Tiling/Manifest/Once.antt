-- ===== src/Tiling/Manifest/Once.antt =====
-- A manifest is accepted exactly when its entries are valid and none comes twice.
use usd_pointcloud_plugins.Prelude.{
  ◌≡◌, refl, ap, ◌∙◌, Bool, true, false, not, ◌&&◌, ◌||◌, List, [], ◌∷◌, is_empty, any_of, all_of,
  All, Bool-cases, inl, inr, arith,
}
use usd_pointcloud_plugins.Prelude.Int.{ℤ, eqb_ℤ}
use usd_pointcloud_plugins.Prelude.Sort.{insert_by, sort_by}
use usd_pointcloud_plugins.Tiling.Ids.{tile_id_equal}
use usd_pointcloud_plugins.Tiling.Manifest.{
  ManifestEntry, manifest_entry_is_valid, manifest_entry_less, same_level_of_tile, neighbours_alike,
  some_neighbours_alike, validate_point_tile_manifest,
}
use usd_pointcloud_plugins.Tiling.Manifest.Sorted.{
  level_less, level_less-cotrans, level_less-total, same-level_less, IsSortedByLevel,
  sort_by-IsSortedByLevel,
}

-- Two entries of the list, wherever they stand, have one tile and one level of detail.
unfoldable pub some_alike : List ManifestEntry → Bool
some_alike [] = false
some_alike (a ∷ l) = any_of (same_level_of_tile a) l || some_alike l

eqb_ℤ_sym : (a b : ℤ) → eqb_ℤ a b ≡ eqb_ℤ b a
eqb_ℤ_sym a b = ground arith

same_sym : (a b : ManifestEntry) → same_level_of_tile a b ≡ same_level_of_tile b a
unfolding same_level_of_tile tile_id_equal
same_sym a b = ground (
  arith,
  eqb_ℤ_sym a.id.level b.id.level,
  eqb_ℤ_sym a.id.x b.id.x,
  eqb_ℤ_sym a.id.y b.id.y,
  eqb_ℤ_sym a.id.z b.id.z,
)

any_of-insert_by :
    (p : ManifestEntry → Bool) (a : ManifestEntry) (l : List ManifestEntry)
    → any_of p (insert_by manifest_entry_less a l) ≡ (p a || any_of p l)
unfolding insert_by
any_of-insert_by p a [] = refl
any_of-insert_by p a (b ∷ l) = elim (Bool-cases (manifest_entry_less b a)) [
  | inl e ↦ rw e (ground (arith, any_of-insert_by p a l))
  | inr e ↦ rw e refl
]

any_of-sort_by :
    (p : ManifestEntry → Bool) (l : List ManifestEntry)
    → any_of p (sort_by manifest_entry_less l) ≡ any_of p l
unfolding sort_by
any_of-sort_by p [] = refl
any_of-sort_by p (a ∷ l) =
    any_of-insert_by p a (sort_by manifest_entry_less l) ∙ ap (λ b. p a || b) (any_of-sort_by p l)

some_alike-insert_by :
    (a : ManifestEntry) (l : List ManifestEntry)
    → some_alike (insert_by manifest_entry_less a l) ≡ some_alike (a ∷ l)
unfolding some_alike insert_by
some_alike-insert_by a [] = refl
some_alike-insert_by a (b ∷ l) = elim (Bool-cases (manifest_entry_less b a)) [
  | inr e ↦ rw e refl
  | inl e ↦ rw e (
      ground (
        arith,
        any_of-insert_by (same_level_of_tile b) a l,
        some_alike-insert_by a l,
        same_sym a b,
      ))
]

-- Sorting keeps whether two entries are alike.
some_alike-sort_by :
    (l : List ManifestEntry) → some_alike (sort_by manifest_entry_less l) ≡ some_alike l
unfolding sort_by some_alike
some_alike-sort_by [] = refl
some_alike-sort_by (a ∷ l) =
    some_alike-insert_by a (sort_by manifest_entry_less l)
    ∙ rw (any_of-sort_by (same_level_of_tile a) l, some_alike-sort_by l) refl

-- An entry between two that are alike is like them.
between :
    (a b : ManifestEntry) (l : List ManifestEntry)
    → level_less b a ≡ false
    → All (λ c. level_less c b ≡ false) l
    → any_of (same_level_of_tile a) l ≡ true
    → same_level_of_tile a b ≡ true
between a b [] h k e = ground arith
between a b (c ∷ l) h k e = elim (Bool-cases (same_level_of_tile a c)) [
  | inl s ↦ level_less-total a b (level_less-cotrans a c b (same-level_less a c s) k.0) h
  | inr s ↦ (let e' = rw s at e in between a b l h k.1 e')
]

neighbours_alike_lem :
    (a : ManifestEntry) (l : List ManifestEntry)
    → IsSortedByLevel (a ∷ l)
    → neighbours_alike a l ≡ some_alike (a ∷ l)
unfolding neighbours_alike some_alike
neighbours_alike_lem a [] s = refl
neighbours_alike_lem a (b ∷ l) s =
    ground (arith, neighbours_alike_lem b l s.1, between a b l s.0.0 s.1.0)

some_neighbours_alike_lem :
    (l : List ManifestEntry) → IsSortedByLevel l → some_neighbours_alike l ≡ some_alike l
unfolding some_neighbours_alike some_alike
some_neighbours_alike_lem [] s = refl
some_neighbours_alike_lem (a ∷ l) s = neighbours_alike_lem a l s

-- `ValidatePointTileManifest` returns true exactly when every entry is valid and no two entries, in whatever
-- order they stand, are for the same tile and level of detail; and then it reports nothing, else it reports
-- an error.
pub validate_point_tile_manifest_iff :
    (entries : List ManifestEntry)
    → ((validate_point_tile_manifest entries).0
        ≡ (all_of manifest_entry_is_valid entries && not (some_alike entries)))
      × (is_empty (validate_point_tile_manifest entries).1
          ≡ (validate_point_tile_manifest entries).0)
unfolding validate_point_tile_manifest
validate_point_tile_manifest_iff entries =
    let alike =
      some_neighbours_alike_lem (sort_by manifest_entry_less entries)
        (sort_by-IsSortedByLevel entries)
      ∙ some_alike-sort_by entries in
    elim (Bool-cases (all_of manifest_entry_is_valid entries)) [
      | inr e ↦ rw e (refl, refl)
      | inl e ↦ elim (Bool-cases (some_alike entries)) [
        | inl f ↦ rw (e, alike, f) (refl, refl)
        | inr f ↦ rw (e, alike, f) (refl, refl)
      ]
    ]
