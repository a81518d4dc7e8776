-- ===== src/Cloud/Names/Unique.antt =====
-- The normalized names of extra bytes: no two are the same, none is reserved, all are identifiers.
use usd_pointcloud_plugins.Prelude.{
  ℕ, zero, suc, ◌+◌, ◌/◌, ◌%◌, ◌<◌, ◌≡◌, refl, ap, subst, Bool, true, false, not, ◌&&◌, ◌||◌, ◌==◌,
  List, [], ◌∷◌, map, Bytes, bytes_eq, bytes_eq_refl, bytes_eq→eq, all_of, all_of-append, length,
  Bool-cases, and_true, inl, inr, arith,
}
use usd_pointcloud_plugins.Prelude.Decimal.{decimal, digits}
use usd_pointcloud_plugins.Cloud.Names.Fixed.{reserved_names}
use usd_pointcloud_plugins.Cloud.Names.{
  is_ascii_alpha_numeric, is_ascii_digit, name_character, start_name, normalize_extra_byte_name,
  is_used, with_suffix, free_name, names_from, normalize_extra_byte_names,
}
use usd_pointcloud_plugins.Cloud.Names.Search.{base-Apart, free_name-free}

-- No name of the list occurs twice.
unfoldable pub distinct : List Bytes → Bool
distinct [] = true
distinct (n ∷ ns) = not (is_used n ns) && distinct ns

-- An identifier: letters, digits and underscores, at least one, and no digit first.
unfoldable pub is_identifier : Bytes → Bool
is_identifier [] = false
is_identifier (c ∷ cs) =
    not (is_ascii_digit c) && all_of (λ d. is_ascii_alpha_numeric d || d == b'_') (c ∷ cs)

-- The names of a list are free one after the other.
abbrev Free : List Bytes → List Bytes → Type 0
Free used [] = Unit {0}
Free used (n ∷ ns) = (is_used n used ≡ false) × Free (n ∷ used) ns

names_from-Free :
    (used names : List Bytes)
    → length used + length names + 3 < 0x1_0000_0000_0000_0000
    → Free used (names_from used names)
unfolding names_from
names_from-Free used [] h = tt
names_from-Free used (n ∷ ns) h =
    let base = normalize_extra_byte_name n in
    let name = free_name (suc (length used)) base 2 used base in
    (
      free_name-free (suc (length used)) base 2 used base (omega arith) (omega (arith, h))
          (base-Apart base 2),
      names_from-Free (name ∷ used) ns (omega (arith, h)),
    )

-- A name in use is not among names that are free.
Free-other :
    (n : Bytes) (used ns : List Bytes) → is_used n used ≡ true → Free used ns → is_used n ns ≡ false
unfolding is_used
Free-other n used [] u h = refl
Free-other n used (m ∷ ms) u h = elim (Bool-cases (bytes_eq m n)) [
  | inl e ↦
      (let k = subst (λ v. is_used v used ≡ false) (bytes_eq→eq m n e) h.0 in ground (arith, u, k))
  | inr e ↦ rw e (Free-other n (m ∷ used) ms (ground (arith, u)) h.1)
]

Free-distinct : (used ns : List Bytes) → Free used ns → distinct ns ≡ true
unfolding distinct is_used
Free-distinct used [] h = refl
Free-distinct used (n ∷ ns) h =
    rw (Free-other n (n ∷ used) ns (rw (bytes_eq_refl n) refl) h.1, Free-distinct (n ∷ used) ns h.1)
      refl

Free-others :
    (us used ns : List Bytes)
    → all_of (λ u. is_used u used) us ≡ true
    → Free used ns
    → all_of (λ u. not (is_used u ns)) us ≡ true
Free-others [] used ns h f = refl
Free-others (u ∷ us) used ns h f =
    let (now, later) = and_true (is_used u used) (all_of (λ v. is_used v used) us) h in
    rw (Free-other u used ns now f, Free-others us used ns later f) refl

reserved_used : all_of (λ u. is_used u reserved_names) reserved_names ≡ true
unfolding is_used
reserved_used = refl

abbrev fits_name : ℕ → Bool
fits_name d = is_ascii_alpha_numeric d || d == b'_'

name_character-fits : (c : ℕ) → fits_name (name_character c) ≡ true
unfolding name_character is_ascii_alpha_numeric
name_character-fits c = elim (Bool-cases (fits_name c)) [ inl e ↦ rw e e | inr e ↦ rw e refl ]

map-name_character : (cs : Bytes) → all_of fits_name (map name_character cs) ≡ true
map-name_character [] = refl
map-name_character (c ∷ cs) = rw (name_character-fits c, map-name_character cs) refl

start_name-identifier :
    (cs : Bytes) → all_of fits_name cs ≡ true → is_identifier (start_name cs) ≡ true
unfolding start_name is_identifier is_ascii_digit is_ascii_alpha_numeric
start_name-identifier [] h = refl
start_name-identifier (c ∷ cs) h = ground (arith, h)

digits-identifier : (f n : ℕ) → all_of fits_name (digits f n) ≡ true
unfolding digits is_ascii_alpha_numeric
digits-identifier zero n = ground arith
digits-identifier (suc f) n = ground (
  arith,
  digits-identifier f (n / 10),
  all_of-append fits_name (digits f (n / 10)) ((48 + n % 10) ∷ []),
)

with_suffix-identifier :
    (base : Bytes) (s : ℕ) → is_identifier base ≡ true → is_identifier (with_suffix base s) ≡ true
unfolding with_suffix is_identifier decimal
with_suffix-identifier [] s h = ground (arith, h)
with_suffix-identifier (c ∷ cs) s h =
    rw (all_of-append fits_name cs (b'_' ∷ digits 19 s), digits-identifier 19 s) (ground (arith, h))

free_name-identifier :
    (f : ℕ) (base : Bytes) (s : ℕ) (used : List Bytes) (name : Bytes)
    → is_identifier base ≡ true
    → is_identifier name ≡ true
    → is_identifier (free_name f base s used name) ≡ true
unfolding free_name
free_name-identifier zero base s used name b n = n
free_name-identifier (suc f) base s used name b n = elim (Bool-cases (is_used name used)) [
  | inr e ↦ rw e n
  | inl e ↦ rw e (
      free_name-identifier f base (suc s) used (with_suffix base s) b
        (with_suffix-identifier base s b))
]

names_from-identifier :
    (used names : List Bytes) → all_of is_identifier (names_from used names) ≡ true
unfolding names_from normalize_extra_byte_name
names_from-identifier used [] = refl
names_from-identifier used (n ∷ ns) =
    let good = start_name-identifier (map name_character n) (map-name_character n) in
    rw
      (
        free_name-identifier (suc (length used)) (normalize_extra_byte_name n) 2 used
            (normalize_extra_byte_name n) good good,
        names_from-identifier
            (free_name (suc (length used)) (normalize_extra_byte_name n) 2 used
                (normalize_extra_byte_name n)
              ∷ used)
            ns,
      )
      refl

length-names_from : (used names : List Bytes) → length (names_from used names) ≡ length names
unfolding names_from
length-names_from used [] = refl
length-names_from used (n ∷ ns) = ap suc (length-names_from (_ ∷ used) ns)

-- For as many names as memory can hold, `NormalizeExtraByteNames` gives as many names, all of them
-- identifiers, no two the same and none of the reserved ones: each search for a free name ends with one.
pub normalize_extra_byte_names-distinct :
    (names : List Bytes)
    → length names < 0xffff_ffff_ffff_ff00
    → (length (normalize_extra_byte_names names) ≡ length names)
      × (distinct (normalize_extra_byte_names names) ≡ true)
      × (all_of (λ r. not (is_used r (normalize_extra_byte_names names))) reserved_names ≡ true)
      × (all_of is_identifier (normalize_extra_byte_names names) ≡ true)
unfolding normalize_extra_byte_names
normalize_extra_byte_names-distinct names h =
    let free = names_from-Free reserved_names names (omega (arith, h)) in
    (
      length-names_from reserved_names names,
      Free-distinct reserved_names (names_from reserved_names names) free,
      Free-others reserved_names reserved_names (names_from reserved_names names) reserved_used
          free,
      names_from-identifier reserved_names names,
    )
