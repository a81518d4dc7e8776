-- ===== src/Tiling/Budget/Accounts.antt =====
-- The figures of a plan agree with its tiles.
use usd_pointcloud_plugins.Prelude.{
  ℕ, ◌≤◌, ◌<◌, min, max, ◌≡◌, refl, sym, ◌∙◌, Bool, true, false, ◌||◌, ◌==◌, leb, if◌then◌else◌,
  List, [], ◌∷◌, ◌++◌, is_empty, length, length-append, any_of, All, All-append, All-map_of,
  Bool-cases, ◌⊎◌, inl, inr, arith,
}
use usd_pointcloud_plugins.Tiling.Ids.{tile_at}
use usd_pointcloud_plugins.Tiling.Budget.{Rect, BudgetTile, BudgetPlan, record_leaf}
use usd_pointcloud_plugins.Tiling.Budget.Parts.{any_of-append, All-empty}

-- The figures of a plan: the number of tiles, and the least and the greatest count of points.
pub record IsAccountedFor (count low high : ℕ) (tiles : List BudgetTile) : Type 0 where
  pub tile_count : count ≡ length tiles
  pub positive : All (λ t. 0 < t.point_count) tiles
  pub least : All (λ t. low ≤ t.point_count) tiles
  pub greatest : All (λ t. t.point_count ≤ high) tiles
  pub least_met : (is_empty tiles || any_of (λ t. t.point_count == low) tiles) ≡ true
  pub greatest_met : (is_empty tiles || any_of (λ t. t.point_count == high) tiles) ≡ true
  pub none_yet : is_empty tiles ≡ true → (low ≡ 0) × (high ≡ 0)
  pub least_some : is_empty tiles ≡ false → 0 < low

abbrev pub IsAccounted : BudgetPlan → Type 0
IsAccounted p =
    IsAccountedFor p.tile_count p.minimum_points_per_tile p.maximum_points_per_tile p.tiles

is_empty-snoc {ℓ} : {A : Type ℓ} (l : List A) (a : A) → is_empty (l ++ a ∷ []) ≡ false
is_empty-snoc [] a = refl
is_empty-snoc (b ∷ l) a = refl

-- A figure that the old tiles meet, or that the new one meets, is met.
met :
    (l : List BudgetTile) (t : BudgetTile) (m m2 : ℕ)
    → (is_empty l || any_of (λ t. t.point_count == m) l) ≡ true
    → ((m2 ≡ m) × (is_empty l ≡ false)) ⊎ (m2 ≡ t.point_count)
    → (is_empty (l ++ t ∷ []) || any_of (λ t. t.point_count == m2) (l ++ t ∷ [])) ≡ true
met l t m m2 h (inl (e, some)) =
    let h' = rw some at h in
    rw (is_empty-snoc l t, e, any_of-append (λ t. t.point_count == m) l (t ∷ []), h') refl
met l t m m2 h (inr e) =
    rw (is_empty-snoc l t, any_of-append (λ t. t.point_count == m2) l (t ∷ [])) (ground arith)

abbrev least_with : ℕ → ℕ → ℕ
least_with m c = if m == 0 then c else min m c

pub record_leaf-IsAccounted :
    (count : ℕ) (r : Rect) (depth x y : ℕ) (p : BudgetPlan)
    → 0 < count
    → IsAccounted p
    → IsAccounted (record_leaf count r (tile_at depth x y) p)
unfolding record_leaf
record_leaf-IsAccounted count r depth x y p pos_count a = record {
  tile_count = omega (arith, a.tile_count, length-append p.tiles (added ∷ []));
  positive = All-append _ p.tiles (added ∷ []) a.positive (pos_count, tt);
  least =
      All-append _ p.tiles (added ∷ [])
        (elim (Bool-cases (is_empty p.tiles)) [
          | inl e ↦ All-empty _ p.tiles e
          | inr e ↦
              All-map_of p.tiles
                (λ t h.
                  least_with-le p.minimum_points_per_tile count t.point_count (a.least_some e) h)
                a.least
        ])
        (ground arith, tt);
  greatest =
      All-append _ p.tiles (added ∷ []) (All-map_of p.tiles (λ t h. omega (arith, h)) a.greatest)
        (omega arith, tt);
  least_met =
      met p.tiles added p.minimum_points_per_tile (least_with p.minimum_points_per_tile count)
        a.least_met
        (least_one (is_empty p.tiles) p.minimum_points_per_tile a.least_some
          (λ e. (a.none_yet e).0));
  greatest_met =
      met p.tiles added p.maximum_points_per_tile (max p.maximum_points_per_tile count)
        a.greatest_met
        (greatest_one (is_empty p.tiles) p.maximum_points_per_tile (λ e. (a.none_yet e).1));
  none_yet = λ e. ground (arith, sym (is_empty-snoc p.tiles added) ∙ e);
  least_some = λ e. ground arith;
}
  where
    added : BudgetTile
    added = record { id = tile_at depth x y; rect = r; point_count = count }

    least_with-le : (m c t : ℕ) → 0 < m → m ≤ t → least_with m c ≤ t
    least_with-le m c t h k = ground arith

    least_one :
        (e : Bool) (m : ℕ)
        → (e ≡ false → 0 < m)
        → (e ≡ true → m ≡ 0)
        → ((least_with m count ≡ m) × (e ≡ false)) ⊎ (least_with m count ≡ count)
    least_one true m f g = inr (ground (arith, g refl))
    least_one false m f g = elim (Bool-cases (leb m count)) [
      | inl h ↦ inl (ground (arith, f refl), refl)
      | inr h ↦ inr (ground (arith, f refl))
    ]

    greatest_one :
        (e : Bool) (m : ℕ)
        → (e ≡ true → m ≡ 0)
        → ((max m count ≡ m) × (e ≡ false)) ⊎ (max m count ≡ count)
    greatest_one true m g = inr (omega (arith, g refl))
    greatest_one false m g = elim (Bool-cases (leb count m)) [
      | inl h ↦ inl (ground arith, refl)
      | inr h ↦ inr (ground arith)
    ]
