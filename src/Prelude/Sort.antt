-- ===== src/Prelude/Sort.antt =====
-- `std::sort` by a strict order in which elements that do not come one before the other are equal:
-- the sorted list is determined, so any sorting routine computes it.
use mathlib.Core.Path.{◌≡◌, refl, ◌∙◌}
use mathlib.Core.Bool.{Bool, true, false, ◌&&◌, ◌||◌, not}
use mathlib.Core.List.{List, [], ◌∷◌, Perm, Permᴰ}
use mathlib.Core.List.Perm
use mathlib.Core.Logic.{inl, inr, ∥∥₁_elim}
use native.Mathlib.Omega.{arith}
use usd_pointcloud_plugins.Prelude.Tests.{ltb, ◌==◌, if◌then◌else◌, Bool-cases}
use usd_pointcloud_plugins.Prelude.Lists.{Bytes}

module _ {ℓ} {A : Type ℓ} (less : A → A → Bool) where
  unfoldable pub insert_by : A → List A → List A
  insert_by a [] = a ∷ []
  insert_by a (b ∷ bs) = if less b a then b ∷ insert_by a bs else a ∷ b ∷ bs

  unfoldable pub sort_by : List A → List A
  sort_by [] = []
  sort_by (a ∷ as') = insert_by a (sort_by as')

  pub record StrictOrder : Type ℓ where
    pub irrefl : (a : A) → less a a ≡ false
    pub trans : (a b c : A) → less a b ≡ true → less b c ≡ true → less a c ≡ true
    pub total : (a b : A) → less a b ≡ false → less b a ≡ false → a ≡ b

module _ {ℓ} {A : Type ℓ} (less : A → A → Bool) (o : StrictOrder less) where
  insert_comm :
      (a b : A) (l : List A)
      → insert_by less a (insert_by less b l) ≡ insert_by less b (insert_by less a l)
  unfolding insert_by
  insert_comm a b [] = ground (arith, o.total a b, o.trans a b a, o.irrefl a)
  insert_comm a b (c ∷ l) = ground (
    arith,
    o.total a b,
    o.trans a b a,
    o.irrefl a,
    o.trans c a b,
    o.trans c b a,
    o.trans b c a,
    o.trans a c b,
    insert_comm a b l,
  )

  sort_by-Permᴰ : {xs ys : List A} → Permᴰ xs ys → sort_by less xs ≡ sort_by less ys
  unfolding sort_by
  sort_by-Permᴰ Permᴰ.nil = refl
  sort_by-Permᴰ (Permᴰ.cons e p) = cc (e, sort_by-Permᴰ p)
  sort_by-Permᴰ (Permᴰ.swap {a = a} {b = b} {l = l} e f) =
      cc (e, f, insert_comm a b (sort_by less l))
  sort_by-Permᴰ (Permᴰ.trans p q) = sort_by-Permᴰ p ∙ sort_by-Permᴰ q

  -- The order of the input does not show in the sorted list.
  pub sort_by-Perm :
      IsSet (List A) → {xs ys : List A} → Perm xs ys → sort_by less xs ≡ sort_by less ys
  sort_by-Perm s p = ∥∥₁_elim p (s _ _) sort_by-Permᴰ

module _ {ℓ} {A : Type ℓ} (less : A → A → Bool) where
  insert_by-Perm : (a : A) (l : List A) → Perm (insert_by less a l) (a ∷ l)
  unfolding insert_by
  insert_by-Perm a [] = Perm.refl _
  insert_by-Perm a (b ∷ l) = elim (Bool-cases (less b a)) [
    | inl h ↦ rw h (Perm.trans (Perm.cons b (insert_by-Perm a l)) (Perm.swap a b l))
    | inr h ↦ rw h (Perm.refl _)
  ]

  pub sort_by_perm : (l : List A) → Perm (sort_by less l) l
  unfolding sort_by
  sort_by_perm [] = Perm.refl _
  sort_by_perm (a ∷ l) =
      Perm.trans (insert_by-Perm a (sort_by less l)) (Perm.cons a (sort_by_perm l))

-- The order of `std::string`, byte by byte.
unfoldable pub bytes_less : Bytes → Bytes → Bool
bytes_less [] [] = false
bytes_less [] (y ∷ ys) = true
bytes_less (x ∷ xs) [] = false
bytes_less (x ∷ xs) (y ∷ ys) = ltb x y || (x == y && bytes_less xs ys)

bytes_less_irrefl : (a : Bytes) → bytes_less a a ≡ false
unfolding bytes_less
bytes_less_irrefl [] = refl
bytes_less_irrefl (x ∷ xs) = ground (arith, bytes_less_irrefl xs)

bytes_less_trans :
    (a b c : Bytes) → bytes_less a b ≡ true → bytes_less b c ≡ true → bytes_less a c ≡ true
unfolding bytes_less
bytes_less_trans [] b [] h k =
    elim b as (λ b. bytes_less [] b ≡ true → bytes_less b [] ≡ true → bytes_less [] [] ≡ true) [
      | [] ↦ λ p q. p
      | y ∷ ys ↦ λ p q. q
    ]
      h k
bytes_less_trans [] b (z ∷ zs) h k = refl
bytes_less_trans (x ∷ xs) [] c h k = cc
bytes_less_trans (x ∷ xs) (y ∷ ys) [] h k = k
bytes_less_trans (x ∷ xs) (y ∷ ys) (z ∷ zs) h k = ground (arith, bytes_less_trans xs ys zs)

bytes_less-total : (a b : Bytes) → bytes_less a b ≡ false → bytes_less b a ≡ false → a ≡ b
unfolding bytes_less
bytes_less-total [] [] h k = refl
bytes_less-total [] (y ∷ ys) h k = cc
bytes_less-total (x ∷ xs) [] h k = cc
bytes_less-total (x ∷ xs) (y ∷ ys) h k = ground (arith, bytes_less-total xs ys)

pub bytes_order : StrictOrder bytes_less
bytes_order = record {
  irrefl = bytes_less_irrefl;
  trans = bytes_less_trans;
  total = bytes_less-total;
}

-- The order of pairs of strings, the first component first.
unfoldable pub pair_less : Bytes × Bytes → Bytes × Bytes → Bool
pair_less (a, b) (c, d) = bytes_less a c || (not (bytes_less c a) && bytes_less b d)

pub pair_order : StrictOrder pair_less
unfolding pair_less
pair_order = record {
  irrefl = λ p. ground (arith, bytes_less_irrefl p.0, bytes_less_irrefl p.1);
  trans = λ p q r h k. ground (
    arith,
    bytes_less_trans p.0 q.0 r.0,
    bytes_less_trans p.1 q.1 r.1,
    bytes_less-total p.0 q.0,
    bytes_less-total q.0 r.0,
    bytes_less_trans q.0 r.0 p.0,
    bytes_less_trans r.0 p.0 q.0,
    bytes_less_irrefl p.0,
  );
  total = λ p q h k.
      ground (arith, bytes_less-total p.0 q.0, bytes_less-total p.1 q.1, bytes_less_irrefl p.0);
}
