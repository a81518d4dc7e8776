-- ===== src/Tiling/Ids/Order.antt =====
-- The order of tile identities is total, and the binary search relies on it.
use mathlib.Core.Path.{fun_ext}
use usd_pointcloud_plugins.Prelude.{
  ◌+◌, ◌≡◌, refl, Bool, true, false, not, ◌&&◌, if◌then◌else◌, ◌==◌, arith, subst, ap, ◌∙◌, ◌||◌,
  List, [], ◌∷◌, All, All-map_of, any_of, Bool-cases, inl, inr,
}
use usd_pointcloud_plugins.Prelude.Int.{ℤ, pos, negsuc, eqb_ℤ, ltb_ℤ, pos_part, neg_part}
use usd_pointcloud_plugins.Prelude.Sort.{insert_by, sort_by}
use usd_pointcloud_plugins.Core.TileId.{TileId}
use usd_pointcloud_plugins.Tiling.Ids.{tile_id_less, tile_id_equal, first_not_less_equals}

-- A strict order in which what is incomparable counts as equal.
pub record LinearOrder {ℓ} {A : Type ℓ} (less equal : A → A → Bool) : Type ℓ where
  pub equal_refl : (a : A) → equal a a ≡ true
  pub asym : (a b : A) → less a b ≡ true → less b a ≡ false
  pub cotrans : (a b c : A) → less a b ≡ false → less b c ≡ false → less a c ≡ false
  pub apart : (a b : A) → less a b ≡ true → equal a b ≡ false
  pub total : (a b : A) → less a b ≡ false → less b a ≡ false → equal a b ≡ true
  pub equal_left : (a b c : A) → equal a b ≡ true → less a c ≡ less b c
  pub equal_right : (a b c : A) → equal a b ≡ true → less c a ≡ less c b

eqb_parts : (a b : ℤ) → eqb_ℤ a b ≡ (pos_part a + neg_part b == pos_part b + neg_part a)
eqb_parts (pos a) (pos b) = ground arith
eqb_parts (pos a) (negsuc b) = ground arith
eqb_parts (negsuc a) (pos b) = ground arith
eqb_parts (negsuc a) (negsuc b) = ground arith

ltb_ℤ-LinearOrder : LinearOrder ltb_ℤ eqb_ℤ
ltb_ℤ-LinearOrder = record {
  equal_refl = λ a. ground (arith, eqb_parts a a);
  asym = λ a b h. ground arith;
  cotrans = λ a b c h k. ground arith;
  apart = λ a b h. ground (arith, eqb_parts a b);
  total = λ a b h k. ground (arith, eqb_parts a b);
  equal_left = λ a b c h. ground (arith, eqb_parts a b);
  equal_right = λ a b c h. ground (arith, eqb_parts a b);
}

-- An order by an integer first and by another order where the integers are equal.
module _ {ℓ} {A : Type ℓ} (f : A → ℤ) {less equal : A → A → Bool} (o : LinearOrder less equal) where
  abbrev first : A → A → Bool
  first a b = if not (eqb_ℤ (f a) (f b)) then ltb_ℤ (f a) (f b) else less a b

  lex-LinearOrder : LinearOrder first (λ a b. eqb_ℤ (f a) (f b) && equal a b)
  lex-LinearOrder = record {
    equal_refl = λ a. ground (arith, eqb_parts (f a) (f a), o.equal_refl a);
    asym = λ a b h. ground (arith, eqb_parts (f a) (f b), eqb_parts (f b) (f a), o.asym a b);
    cotrans = λ a b c h k. ground (
      arith,
      eqb_parts (f a) (f b),
      eqb_parts (f b) (f c),
      eqb_parts (f a) (f c),
      o.cotrans a b c,
    );
    apart = λ a b h. ground (arith, eqb_parts (f a) (f b), o.apart a b);
    total = λ a b h k. ground (arith, eqb_parts (f a) (f b), eqb_parts (f b) (f a), o.total a b);
    equal_left = λ a b c h. ground (
      arith,
      eqb_parts (f a) (f b),
      eqb_parts (f a) (f c),
      eqb_parts (f b) (f c),
      o.equal_left a b c,
    );
    equal_right = λ a b c h. ground (
      arith,
      eqb_parts (f a) (f b),
      eqb_parts (f c) (f a),
      eqb_parts (f c) (f b),
      o.equal_right a b c,
    );
  }

abbrev by_z : LinearOrder (λ (a b : TileId). ltb_ℤ a.z b.z) (λ a b. eqb_ℤ a.z b.z)
by_z = record {
  equal_refl = λ a. ltb_ℤ-LinearOrder.equal_refl a.z;
  asym = λ a b. ltb_ℤ-LinearOrder.asym a.z b.z;
  cotrans = λ a b c. ltb_ℤ-LinearOrder.cotrans a.z b.z c.z;
  apart = λ a b. ltb_ℤ-LinearOrder.apart a.z b.z;
  total = λ a b. ltb_ℤ-LinearOrder.total a.z b.z;
  equal_left = λ a b c. ltb_ℤ-LinearOrder.equal_left a.z b.z c.z;
  equal_right = λ a b c. ltb_ℤ-LinearOrder.equal_right a.z b.z c.z;
}

equal_regroup :
    (l r : TileId)
    → (eqb_ℤ l.level r.level && (eqb_ℤ l.x r.x && (eqb_ℤ l.y r.y && eqb_ℤ l.z r.z)))
      ≡ tile_id_equal l r
unfolding tile_id_equal
equal_regroup l r = ground arith

pub tile_id_less-LinearOrder : LinearOrder tile_id_less tile_id_equal
unfolding tile_id_less
tile_id_less-LinearOrder =
    subst (LinearOrder tile_id_less) (fun_ext (λ l. fun_ext (equal_regroup l))) (
      lex-LinearOrder (λ t. t.level) (lex-LinearOrder (λ t. t.x) (lex-LinearOrder (λ t. t.y) by_z)))

-- A list in order, and the search for the first element that does not come before a value.
module _ {ℓ} {A : Type ℓ} {less equal : A → A → Bool} (o : LinearOrder less equal) where
  abbrev IsSorted : List A → Type 0
  IsSorted [] = Unit {0}
  IsSorted (a ∷ as') = All (λ b. less b a ≡ false) as' × IsSorted as'

  All-insert_by : (P : A → Type 0) (a : A) (l : List A) → P a → All P l → All P (insert_by less a l)
  unfolding insert_by
  All-insert_by P a [] h k = (h, tt)
  All-insert_by P a (b ∷ l) h (k, ks) = elim (Bool-cases (less b a)) [
    | inl e ↦ rw e (k, All-insert_by P a l h ks)
    | inr e ↦ rw e (h, (k, ks))
  ]

  insert_by-IsSorted : (a : A) (l : List A) → IsSorted l → IsSorted (insert_by less a l)
  unfolding insert_by
  insert_by-IsSorted a [] s = (tt, tt)
  insert_by-IsSorted a (b ∷ l) (h, s) = elim (Bool-cases (less b a)) [
    | inl e ↦
        rw e (All-insert_by (λ c. less c b ≡ false) a l (o.asym b a e) h, insert_by-IsSorted a l s)
    | inr e ↦ rw e ((e, All-map_of l (λ c k. o.cotrans c b a k e) h), (h, s))
  ]

  sort_by-IsSorted : (l : List A) → IsSorted (sort_by less l)
  unfolding sort_by
  sort_by-IsSorted [] = tt
  sort_by-IsSorted (a ∷ l) = insert_by-IsSorted a (sort_by less l) (sort_by-IsSorted l)

  none_equal :
      (a id : A) (l : List A)
      → less id a ≡ true
      → All (λ b. less b a ≡ false) l
      → any_of (λ b. equal b id) l ≡ false
  none_equal a id [] h k = refl
  none_equal a id (b ∷ l) h (k, ks) = ground (arith, none_equal a id l h ks, o.equal_left b id a)

  comes_before : (a id : A) → less a id ≡ false → equal a id ≡ false → less id a ≡ true
  comes_before a id e h = ground (arith, o.total a id)

  any_of-insert_by :
      (p : A → Bool) (a : A) (l : List A) → any_of p (insert_by less a l) ≡ (p a || any_of p l)
  unfolding insert_by
  any_of-insert_by p a [] = refl
  any_of-insert_by p a (b ∷ l) = ground (arith, any_of-insert_by p a l)

  any_of-sort_by : (p : A → Bool) (l : List A) → any_of p (sort_by less l) ≡ any_of p l
  unfolding sort_by
  any_of-sort_by p [] = refl
  any_of-sort_by p (a ∷ l) =
      any_of-insert_by p a (sort_by less l) ∙ ap (λ b. p a || b) (any_of-sort_by p l)

  first_not_less-any_of :
      (id : A) (l : List A)
      → IsSorted l
      → first_not_less_equals less equal id l ≡ any_of (λ a. equal a id) l
  unfolding first_not_less_equals
  first_not_less-any_of id [] s = refl
  first_not_less-any_of id (a ∷ l) (h, s) = elim (Bool-cases (less a id)) [
    | inl e ↦ ground (arith, first_not_less-any_of id l s, o.apart a id e)
    | inr e ↦ elim (Bool-cases (equal a id)) [
      | inl same ↦ rw (e, same) refl
      | inr other ↦
          (let before = comes_before a id e other in rw (e, other, none_equal a id l before h) refl)
    ]
  ]

  -- The binary search in the sorted list finds what a walk through the list would.
  pub search_sorted :
      (id : A) (l : List A)
      → first_not_less_equals less equal id (sort_by less l) ≡ any_of (λ a. equal a id) l
  search_sorted id l =
      first_not_less-any_of id (sort_by less l) (sort_by-IsSorted l)
      ∙ any_of-sort_by (λ a. equal a id) l
