-- ===== src/Cloud/Names/Search.antt =====
-- The loop for a free name ends with one: among more candidates than names in use one is free.
use usd_pointcloud_plugins.Prelude.{
  ℕ, zero, suc, ◌+◌, ◌≤◌, ◌<◌, ◌≡◌, refl, sym, ap, ◌∙◌, subst, true, false, ◌||◌, if◌then◌else◌,
  List, [], ◌∷◌, ◌++◌, Bytes, bytes_eq, bytes_eq_refl, bytes_eq→eq, length, Bool-cases, inl, inr,
  arith,
}
use usd_pointcloud_plugins.Prelude.Decimal.{decimal, IsU64, read_number, read_number-decimal}
use usd_pointcloud_plugins.Cloud.Names.{is_used, with_suffix, free_name}

remove : Bytes → List Bytes → List Bytes
remove n [] = []
remove n (u ∷ us) = let rest = remove n us in if bytes_eq u n then rest else u ∷ rest

bytes_eq_sym : (a b : Bytes) → bytes_eq a b ≡ false → bytes_eq b a ≡ false
bytes_eq_sym a b h = elim (Bool-cases (bytes_eq b a)) [
  | inr e ↦ e
  | inl e ↦
      (let k = subst (λ v. bytes_eq a v ≡ false) (bytes_eq→eq b a e) h in
        ground (arith, bytes_eq_refl a))
]

is_used-remove :
    (n x : Bytes) (used : List Bytes)
    → bytes_eq n x ≡ false
    → is_used x (remove n used) ≡ is_used x used
unfolding is_used remove
is_used-remove n x [] h = refl
is_used-remove n x (u ∷ us) h = elim (Bool-cases (bytes_eq u n)) [
  | inl e ↦
      (let other : bytes_eq u x ≡ false =
          subst (λ v. bytes_eq v x ≡ false) (sym (bytes_eq→eq u n e)) h in
        rw (e, other) (is_used-remove n x us h))
  | inr e ↦ rw e (ap (λ b. bytes_eq u x || b) (is_used-remove n x us h))
]

length-remove_most : (n : Bytes) (used : List Bytes) → length (remove n used) ≤ length used
unfolding remove
length-remove_most n [] = omega arith
length-remove_most n (u ∷ us) = ground (arith, length-remove_most n us)

length-remove :
    (n : Bytes) (used : List Bytes) → is_used n used ≡ true → length (remove n used) < length used
unfolding is_used remove
length-remove n [] h = ground arith
length-remove n (u ∷ us) h = elim (Bool-cases (bytes_eq u n)) [
  | inl e ↦ rw e (omega (arith, length-remove_most n us))
  | inr e ↦ (let h' = rw e at h in rw e (omega (arith, length-remove n us h')))
]

-- A name that no suffix from `s` on gives.
abbrev Apart : Bytes → ℕ → Bytes → Type 0
Apart base s name = (k : ℕ) → s ≤ k → IsU64 k → bytes_eq name (with_suffix base k) ≡ false

decimal-injective : (a b : ℕ) → IsU64 a → IsU64 b → decimal a ≡ decimal b → a ≡ b
decimal-injective a b h k e =
    let p = read_number-decimal a [] h tt in
    let q = read_number-decimal b [] k tt in
    ap (λ r. r.0) (sym p ∙ ap (λ t. read_number 0 (t ++ [])) e ∙ q)

bytes_eq-prefix : (base a b : Bytes) → bytes_eq (base ++ a) (base ++ b) ≡ bytes_eq a b
bytes_eq-prefix [] a b = refl
bytes_eq-prefix (c ∷ cs) a b = ground (arith, bytes_eq-prefix cs a b)

bytes_eq-longer : (base : Bytes) (c : ℕ) (l : Bytes) → bytes_eq base (base ++ c ∷ l) ≡ false
bytes_eq-longer [] c l = refl
bytes_eq-longer (b ∷ bs) c l = ground (arith, bytes_eq-longer bs c l)

pub base-Apart : (base : Bytes) (s : ℕ) → Apart base s base
unfolding with_suffix
base-Apart base s k h u = bytes_eq-longer base b'_' (decimal k)

with_suffix-Apart : (base : Bytes) (s : ℕ) → IsU64 s → Apart base (suc s) (with_suffix base s)
unfolding with_suffix
with_suffix-Apart base s u k h v =
    bytes_eq-prefix base (b'_' ∷ decimal s) (b'_' ∷ decimal k)
    ∙ elim (Bool-cases (bytes_eq (decimal s) (decimal k))) [
      | inr e ↦ e
      | inl e ↦ ground (arith, decimal-injective s k u v (bytes_eq→eq (decimal s) (decimal k) e))
    ]

-- What is apart from the candidates is no result of the loop.
free_name-Apart :
    (f : ℕ) (base : Bytes) (s : ℕ) (used : List Bytes) (name n : Bytes)
    → Apart base s n
    → IsU64 (s + f)
    → bytes_eq n name ≡ false
    → bytes_eq n (free_name f base s used name) ≡ false
unfolding free_name
free_name-Apart zero base s used name n a u h = h
free_name-Apart (suc f) base s used name n a u h = elim (Bool-cases (is_used name used)) [
  | inr e ↦ rw e h
  | inl e ↦ rw e (
      free_name-Apart f base (suc s) used (with_suffix base s) n (λ k l. a k (omega (arith, l)))
        (omega (arith, u)) (a s (omega arith) (omega (arith, u))))
]

-- The loop does not look at a used name that is apart from its candidates.
free_name-remove :
    (f : ℕ) (base : Bytes) (s : ℕ) (used : List Bytes) (name n : Bytes)
    → Apart base s n
    → IsU64 (s + f)
    → bytes_eq n name ≡ false
    → free_name f base s (remove n used) name ≡ free_name f base s used name
unfolding free_name
free_name-remove zero base s used name n a u h = refl
free_name-remove (suc f) base s used name n a u h =
    let rest =
      free_name-remove f base (suc s) used (with_suffix base s) n (λ k l. a k (omega (arith, l)))
        (omega (arith, u)) (a s (omega arith) (omega (arith, u))) in
    rw (is_used-remove n name used h, rest) refl

-- With more rounds than names in use, the loop gives a name that is not used.
pub free_name-free :
    (f : ℕ) (base : Bytes) (s : ℕ) (used : List Bytes) (name : Bytes)
    → length used < f
    → IsU64 (s + f)
    → Apart base s name
    → is_used (free_name f base s used name) used ≡ false
unfolding free_name
free_name-free zero base s used name h u a = ground arith
free_name-free (suc f) base s used name h u a = elim (Bool-cases (is_used name used)) [
  | inr e ↦ rw e e
  | inl e ↦
      (let later : Apart base (suc s) name = λ k l. a k (omega (arith, l)) in
        let next = with_suffix base s in
        let other : bytes_eq name next ≡ false = a s (omega arith) (omega (arith, u)) in
        let u' : IsU64 (suc s + f) = omega (arith, u) in
        let inner =
          free_name-free f base (suc s) (remove name used) next
            (omega (arith, h, length-remove name used e)) u'
            (with_suffix-Apart base s (omega (arith, u))) in
        let same = free_name-remove f base (suc s) used next name later u' other in
        let found = subst (λ r. is_used r (remove name used) ≡ false) same inner in
        let apart = free_name-Apart f base (suc s) used next name later u' other in
        rw e (sym (is_used-remove name (free_name f base (suc s) used next) used apart) ∙ found))
]
