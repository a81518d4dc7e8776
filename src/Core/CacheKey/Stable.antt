-- ===== src/Core/CacheKey/Stable.antt =====
-- What the cache key depends on, and what it keeps apart.
use mathlib.Core.List.{Perm}
use mathlib.Core.List.Perm
use native.Mathlib.Decide.{ℕ_discrete}
use usd_pointcloud_plugins.Prelude.{
  ℕ, ◌≡◌, ◌↔◌, refl, sym, ap, ◌∙◌, [], ◌∷◌, ◌++◌, Bytes, length, All, drop, take-append_length,
  drop-append_length,
}
use usd_pointcloud_plugins.Prelude.Decimal.{decimal, read_number, read_number-decimal, IsU64}
use usd_pointcloud_plugins.Prelude.Sort.{sort_by-Perm, pair_less, pair_order}
use usd_pointcloud_plugins.Core.CacheKey.{
  CacheArguments, trim, normalize_name, normalized_arguments, encode_arguments,
  normalize_cache_arguments, stable_cache_key,
}

arguments_set : IsSet CacheArguments
arguments_set = hlevel ℕ_discrete

-- Arguments given in another order have the same normal form and the same key.
pub stable_cache_key-Perm :
    {a b : CacheArguments}
    → Perm a b
    → (normalize_cache_arguments a ≡ normalize_cache_arguments b)
      × (stable_cache_key a ≡ stable_cache_key b)
unfolding normalize_cache_arguments normalized_arguments stable_cache_key
stable_cache_key-Perm p =
    let e =
      sort_by-Perm pair_less pair_order arguments_set
        (Perm.map (λ (q : Bytes × Bytes). (normalize_name q.0, trim q.1)) p) in
    (rw e, rw e)

-- Sizes are 64-bit numbers.
abbrev pub FitsArgument : Bytes × Bytes → Type 0
FitsArgument p = IsU64 (length p.0) × IsU64 (length p.1)

-- A counted field: its size, a colon, its bytes.
abbrev counted : Bytes → Bytes → Bytes
counted field rest = decimal (length field) ++ (b':' ∷ (field ++ rest))

reads_back :
    (f r : Bytes)
    → IsU64 (length f)
    → ◌≡◌ {A = ℕ × Bytes} (read_number 0 (counted f r)) (length f, b':' ∷ (f ++ r))
reads_back f r h = read_number-decimal (length f) (b':' ∷ (f ++ r)) h refl

counted-injective :
    (f g r s : Bytes)
    → IsU64 (length f)
    → IsU64 (length g)
    → counted f r ≡ counted g s
    → (f ≡ g) × (r ≡ s)
counted-injective f g r s hf hg e = (
  cc (take-append_length f r, take-append_length g s, same_length, same_tail),
  cc (drop-append_length f r, drop-append_length g s, same_length, same_tail),
)
  where
    same_read : ◌≡◌ {A = ℕ × Bytes} (length f, b':' ∷ (f ++ r)) (length g, b':' ∷ (g ++ s))
    same_read = sym (reads_back f r hf) ∙ ap (read_number 0) e ∙ reads_back g s hg

    same_length : length f ≡ length g
    same_length = ap (λ (p : ℕ × Bytes). p.0) same_read

    same_tail : f ++ r ≡ g ++ s
    same_tail = ap (λ (p : ℕ × Bytes). drop 1 p.1) same_read

counted_not_empty : (f r : Bytes) → IsU64 (length f) → counted f r ≡ [] → ⊥
counted_not_empty f r h e =
    cc (ap (λ (p : ℕ × Bytes). p.1) (reads_back f r h), ap (read_number 0) e, read_nothing)
  where
    read_nothing : read_number 0 [] ≡ (0, [])
    read_nothing = unfold read_number in refl

encode_arguments-injective :
    (xs ys : CacheArguments)
    → All FitsArgument xs
    → All FitsArgument ys
    → encode_arguments xs ≡ encode_arguments ys
    → xs ≡ ys
unfolding encode_arguments
encode_arguments-injective [] [] fx fy e = refl
encode_arguments-injective [] ((n, v) ∷ ys) fx fy e = absurd (counted_not_empty n _ fy.0.0 (sym e))
encode_arguments-injective ((n, v) ∷ xs) [] fx fy e = absurd (counted_not_empty n _ fx.0.0 e)
encode_arguments-injective ((n, v) ∷ xs) ((m, w) ∷ ys) fx fy e =
    let (names, after_names) = counted-injective n m _ _ fx.0.0 fy.0.0 e in
    let (values, after_values) = counted-injective v w _ _ fx.0.1 fy.0.1 after_names in
    cc (names, values, encode_arguments-injective xs ys fx.1 fy.1 (ap (drop 1) after_values))

-- Two lists of arguments whose normalized names and values are shorter than 2 ^ 64 have the same
-- normal form exactly when their trimmed, lower-cased and sorted entries are the same: no two
-- different lists run together in the text that is hashed.
pub normalize_cache_arguments_iff :
    (a b : CacheArguments)
    → All FitsArgument (normalized_arguments a)
    → All FitsArgument (normalized_arguments b)
    → (normalize_cache_arguments a ≡ normalize_cache_arguments b)
      ↔ (normalized_arguments a ≡ normalized_arguments b)
unfolding normalize_cache_arguments
normalize_cache_arguments_iff a b fa fb =
    (encode_arguments-injective _ _ fa fb, ap encode_arguments)
