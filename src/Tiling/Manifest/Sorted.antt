-- ===== src/Tiling/Manifest/Sorted.antt =====
-- The order of manifest entries by tile and level of detail, which the sorted entries respect.
use usd_pointcloud_plugins.Prelude.{
  ◌≡◌, Bool, true, false, not, ◌&&◌, ◌||◌, ltb, List, [], ◌∷◌, All, All-map_of, Bool-cases, inl,
  inr, arith,
}
use usd_pointcloud_plugins.Prelude.Sort.{insert_by, sort_by}
use usd_pointcloud_plugins.Tiling.Ids.{tile_id_less}
use usd_pointcloud_plugins.Tiling.Ids.Order.{tile_id_less-LinearOrder}
use usd_pointcloud_plugins.Tiling.Manifest.{ManifestEntry, manifest_entry_less, same_level_of_tile}

pub level_less : ManifestEntry → ManifestEntry → Bool
level_less l r = tile_id_less l.id r.id || (not (tile_id_less r.id l.id) && ltb l.lod r.lod)

level_less-before : (l r : ManifestEntry) → manifest_entry_less l r ≡ true → level_less r l ≡ false
unfolding manifest_entry_less level_less
level_less-before l r h = ground (arith, tile_id_less-LinearOrder.asym l.id r.id)

level_less-after : (l r : ManifestEntry) → manifest_entry_less l r ≡ false → level_less l r ≡ false
unfolding manifest_entry_less level_less
level_less-after l r h = ground (arith, tile_id_less-LinearOrder.asym l.id r.id)

pub level_less-cotrans :
    (a b c : ManifestEntry)
    → level_less a b ≡ false
    → level_less b c ≡ false
    → level_less a c ≡ false
unfolding level_less
level_less-cotrans a b c h k = ground (
  arith,
  tile_id_less-LinearOrder.cotrans a.id b.id c.id,
  tile_id_less-LinearOrder.cotrans c.id b.id a.id,
  tile_id_less-LinearOrder.cotrans c.id a.id b.id,
  tile_id_less-LinearOrder.cotrans b.id a.id c.id,
  tile_id_less-LinearOrder.cotrans b.id c.id a.id,
  tile_id_less-LinearOrder.cotrans a.id c.id b.id,
)

pub level_less-total :
    (a b : ManifestEntry)
    → level_less a b ≡ false
    → level_less b a ≡ false
    → same_level_of_tile a b ≡ true
unfolding level_less same_level_of_tile
level_less-total a b h k = ground (arith, tile_id_less-LinearOrder.total a.id b.id)

pub same-level_less : (a b : ManifestEntry) → same_level_of_tile a b ≡ true → level_less a b ≡ false
unfolding level_less same_level_of_tile
same-level_less a b h = ground (arith, tile_id_less-LinearOrder.apart a.id b.id)

abbrev pub IsSortedByLevel : List ManifestEntry → Type 0
IsSortedByLevel [] = Unit {0}
IsSortedByLevel (a ∷ l) = All (λ b. level_less b a ≡ false) l × IsSortedByLevel l

All-insert_entry :
    (P : ManifestEntry → Type 0) (a : ManifestEntry) (l : List ManifestEntry)
    → P a
    → All P l
    → All P (insert_by manifest_entry_less a l)
unfolding insert_by
All-insert_entry P a [] h k = (h, tt)
All-insert_entry P a (b ∷ l) h (k, ks) = elim (Bool-cases (manifest_entry_less b a)) [
  | inl e ↦ rw e (k, All-insert_entry P a l h ks)
  | inr e ↦ rw e (h, (k, ks))
]

insert_by-IsSortedByLevel :
    (a : ManifestEntry) (l : List ManifestEntry)
    → IsSortedByLevel l
    → IsSortedByLevel (insert_by manifest_entry_less a l)
unfolding insert_by
insert_by-IsSortedByLevel a [] s = (tt, tt)
insert_by-IsSortedByLevel a (b ∷ l) (h, s) = elim (Bool-cases (manifest_entry_less b a)) [
  | inl e ↦ rw e (
    All-insert_entry (λ c. level_less c b ≡ false) a l (level_less-before b a e) h,
    insert_by-IsSortedByLevel a l s,
  )
  | inr e ↦
      (let now = level_less-after b a e in
        rw e ((now, All-map_of l (λ c k. level_less-cotrans c b a k now) h), (h, s)))
]

pub sort_by-IsSortedByLevel :
    (l : List ManifestEntry) → IsSortedByLevel (sort_by manifest_entry_less l)
unfolding sort_by
sort_by-IsSortedByLevel [] = tt
sort_by-IsSortedByLevel (a ∷ l) =
    insert_by-IsSortedByLevel a (sort_by manifest_entry_less l) (sort_by-IsSortedByLevel l)
