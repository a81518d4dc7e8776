-- ===== src/Cloud/Sampling/Stride.antt =====
-- The indices of a sample.
use native.Mathlib.Nat.{
  div-mul-le_self, le-div_iff_mul-le, div-lt_iff_lt-mul, mul-lt-mul_of_pos_right, mul_comm,
  mod-eq_of_lt,
}
use usd_pointcloud_plugins.Prelude.{
  ℕ, zero, suc, ◌+◌, ◌*◌, ◌/◌, ◌^◌, ◌≤◌, ◌<◌, ◌≡◌, refl, ap, List, [], ◌∷◌, length, All, arith,
}
use usd_pointcloud_plugins.Cloud.Sampling.{source_index, source_indices}

pub length-source_indices :
    (count target index n : ℕ) → length (source_indices count target index n) ≡ n
unfolding source_indices
length-source_indices count target index zero = refl
length-source_indices count target index (suc n) =
    ap suc (length-source_indices count target (suc index) n)

-- Increasing, from `low` on.
abbrev pub Rising : ℕ → List ℕ → Type 0
Rising low [] = Unit {0}
Rising low (i ∷ is) = (low ≤ i) × Rising (suc i) is

module _ (count target : ℕ) (nonzero : 0 < target) (fewer : target ≤ count)
    (fits : target * count ≤ 2 ^ 64) where
  no_wrap : (index : ℕ) → index < target → source_index count target index ≡ index * count / target
  unfolding source_index
  no_wrap index h =
      let below : index * count < target * count = mul-lt-mul_of_pos_right h (omega arith) in
      ap (λ n. n / target) (mod-eq_of_lt (omega arith))

  source_index-lt : (index : ℕ) → index < target → source_index count target index < count
  source_index-lt index h =
      let below : index * count < target * count = mul-lt-mul_of_pos_right h (omega arith) in
      rw (no_wrap index h) ((div-lt_iff_lt-mul nonzero).1 (rw (mul_comm count target) below))

  source_index_rises :
      (index : ℕ)
      → suc index < target
      → suc (source_index count target index) ≤ source_index count target (suc index)
  source_index_rises index h =
      let low = div-mul-le_self (index * count) target in
      rw (no_wrap index (omega arith), no_wrap (suc index) h)
        ((le-div_iff_mul-le nonzero).1 (omega (arith, low)))

  Rising-from :
      (index n low : ℕ)
      → index + suc n ≤ target
      → low ≤ source_index count target index
      → Rising low (source_indices count target index (suc n))
  unfolding source_indices
  Rising-from index zero low h l = (l, tt)
  Rising-from index (suc n) low h l = (
    l,
    Rising-from (suc index) n (suc (source_index count target index)) (omega arith)
        (source_index_rises index (omega arith)),
  )

  pub All-lt :
      (index n : ℕ)
      → index + n ≤ target
      → All (λ i. i < count) (source_indices count target index n)
  unfolding source_indices
  All-lt index zero h = tt
  All-lt index (suc n) h = (source_index-lt index (omega arith), All-lt (suc index) n (omega arith))

-- A sample of at least one and at most all points, whose products fit 64 bits, takes as many points as
-- asked for, each point at most once and in the order of the source, and none from behind its end.
pub source_indices-Rising :
    (count target : ℕ)
    → 0 < target
    → target ≤ count
    → target * count ≤ 2 ^ 64
    → let indices = source_indices count target 0 target in
      (length indices ≡ target) × Rising 0 indices × All (λ i. i < count) indices
source_indices-Rising count zero h k f = absurd (omega arith)
source_indices-Rising count (suc n) h k f = (
  length-source_indices count (suc n) 0 (suc n),
  Rising-from count (suc n) h k f 0 n 0 (omega arith) (omega arith),
  All-lt count (suc n) h k f 0 (suc n) (omega arith),
)
