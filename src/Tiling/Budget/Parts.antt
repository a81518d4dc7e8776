-- ===== src/Tiling/Budget/Parts.antt =====
-- Lists divided among the four quarters by a key of their elements.
use usd_pointcloud_plugins.Prelude.{
  ◌+◌, ◌≡◌, refl, Bool, true, false, ◌||◌, Bool-cases, ◌⊎◌, inl, inr, List, [], ◌∷◌, ◌++◌, length,
  any_of, is_empty, map, All, arith,
}
use usd_pointcloud_plugins.Tiling.Budget.{
  Quarter, south_west, south_east, north_west, north_east, same_quarter, select,
}

pub All-both {ℓ κ μ} :
    {A : Type ℓ} (P : A → Type κ) (Q : A → Type μ) (l : List A)
    → All P l
    → All Q l
    → All (λ a. P a × Q a) l
All-both P Q [] h k = tt
All-both P Q (a ∷ l) h k = ((h.0, k.0), All-both P Q l h.1 k.1)

pub All-empty {ℓ κ} : {A : Type ℓ} (P : A → Type κ) (l : List A) → is_empty l ≡ true → All P l
All-empty P [] e = tt
All-empty P (a ∷ l) e = ground arith

pub All-map {ℓ κ μ} :
    {A : Type ℓ} {B : Type κ} (f : A → B) (P : B → Type μ) (l : List A)
    → All (λ a. P (f a)) l
    → All P (map f l)
All-map f P [] h = tt
All-map f P (a ∷ l) h = (h.0, All-map f P l h.1)

Quarter-cases :
    (q : Quarter) → (q ≡ south_west) ⊎ ((q ≡ south_east) ⊎ ((q ≡ north_west) ⊎ (q ≡ north_east)))
Quarter-cases south_west = inl refl
Quarter-cases south_east = inr (inl refl)
Quarter-cases north_west = inr (inr (inl refl))
Quarter-cases north_east = inr (inr (inr refl))

same_quarter_refl : (q : Quarter) → same_quarter q q ≡ true
same_quarter_refl south_west = refl
same_quarter_refl south_east = refl
same_quarter_refl north_west = refl
same_quarter_refl north_east = refl

pub same_quarter→eq : (a b : Quarter) → same_quarter a b ≡ true → a ≡ b
same_quarter→eq south_west south_west h = refl
same_quarter→eq south_west south_east h = ground arith
same_quarter→eq south_west north_west h = ground arith
same_quarter→eq south_west north_east h = ground arith
same_quarter→eq south_east south_west h = ground arith
same_quarter→eq south_east south_east h = refl
same_quarter→eq south_east north_west h = ground arith
same_quarter→eq south_east north_east h = ground arith
same_quarter→eq north_west south_west h = ground arith
same_quarter→eq north_west south_east h = ground arith
same_quarter→eq north_west north_west h = refl
same_quarter→eq north_west north_east h = ground arith
same_quarter→eq north_east south_west h = ground arith
same_quarter→eq north_east south_east h = ground arith
same_quarter→eq north_east north_west h = ground arith
same_quarter→eq north_east north_east h = refl

module _ {ℓ} {A : Type ℓ} where
  pub All-select {κ} :
      (P : A → Type κ) (p : A → Bool) (l : List A)
      → All P l
      → All (λ a. P a × (p a ≡ true)) (select p l)
  unfolding select
  All-select P p [] h = tt
  All-select P p (a ∷ l) h = elim (Bool-cases (p a)) [
    | inl e ↦ rw e ((h.0, e), All-select P p l h.1)
    | inr e ↦ rw e (All-select P p l h.1)
  ]

  pub select_none : (p : A → Bool) (l : List A) → All (λ a. p a ≡ false) l → length (select p l) ≡ 0
  unfolding select
  select_none p [] h = refl
  select_none p (a ∷ l) h = rw h.0 (select_none p l h.1)

  pub select-All :
      (p : A → Bool) (l : List A) → All (λ a. p a ≡ true) l → length (select p l) ≡ length l
  unfolding select
  select-All p [] h = refl
  select-All p (a ∷ l) h = rw h.0 (omega (arith, select-All p l h.1))

  pub any_of_none : (p : A → Bool) (l : List A) → All (λ a. p a ≡ false) l → any_of p l ≡ false
  any_of_none p [] h = refl
  any_of_none p (a ∷ l) h = rw h.0 (any_of_none p l h.1)

  pub any_of-append :
      (p : A → Bool) (xs ys : List A) → any_of p (xs ++ ys) ≡ (any_of p xs || any_of p ys)
  any_of-append p [] ys = refl
  any_of-append p (x ∷ xs) ys = ground (arith, any_of-append p xs ys)

  module _ (key : A → Quarter) where
    abbrev pub part : Quarter → List A → List A
    part q l = select (λ a. same_quarter (key a) q) l

    pub length-parts :
        (p : A → Bool) (l : List A)
        → length (select p l)
          ≡ length (select p (part south_west l))
            + length (select p (part south_east l))
            + length (select p (part north_west l))
            + length (select p (part north_east l))
    unfolding select
    length-parts p [] = refl
    length-parts p (a ∷ l) = elim (Bool-cases (p a)) [
      | inl e ↦ elim (Quarter-cases (key a)) [
        | inl k ↦ rw (k, e) (omega (arith, length-parts p l))
        | inr (inl k) ↦ rw (k, e) (omega (arith, length-parts p l))
        | inr (inr (inl k)) ↦ rw (k, e) (omega (arith, length-parts p l))
        | inr (inr (inr k)) ↦ rw (k, e) (omega (arith, length-parts p l))
      ]
      | inr e ↦ elim (Quarter-cases (key a)) [
        | inl k ↦ rw (k, e) (length-parts p l)
        | inr (inl k) ↦ rw (k, e) (length-parts p l)
        | inr (inr (inl k)) ↦ rw (k, e) (length-parts p l)
        | inr (inr (inr k)) ↦ rw (k, e) (length-parts p l)
      ]
    ]

    All-select_tail {κ} :
        (P : A → Type κ) (p : A → Bool) (a : A) (l : List A)
        → All P (select p (a ∷ l))
        → All P (select p l)
    unfolding select
    All-select_tail P p a l h = elim (Bool-cases (p a)) [
      | inl e ↦ let (_, rest) = rw e at h in rest
      | inr e ↦ rw e at h
    ]

    -- What holds on every part holds on the whole list.
    pub All-parts {κ} : (P : A → Type κ) (l : List A) → ((q : Quarter) → All P (part q l)) → All P l
    unfolding select
    All-parts P [] h = tt
    All-parts P (a ∷ l) h =
        let here = h (key a) in
        let (now, _) = rw (same_quarter_refl (key a)) at here in
        (now, All-parts P l (λ q. All-select_tail P (λ b. same_quarter (key b) q) a l (h q)))
