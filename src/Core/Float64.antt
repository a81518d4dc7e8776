-- ===== src/Core/Float64.antt =====
-- An IEEE 754 double as its 64-bit pattern, with the classification and the comparisons of C++.
-- The arithmetic of doubles is not modelled: where the code rounds, it is a parameter.
use usd_pointcloud_plugins.Prelude.{
  ℕ, ◌-◌, ◌+◌, ◌%◌, ◌/◌, ◌≡◌, refl, Bool, true, false, not, ◌&&◌, ltb, leb, ◌==◌, if◌then◌else◌,
  arith,
}

abbrev pub sign_bit : ℕ
sign_bit = 0x8000_0000_0000_0000

abbrev pub infinity_bits : ℕ
infinity_bits = 0x7ff0_0000_0000_0000

abbrev pub negative_infinity : ℕ
negative_infinity = 0xfff0_0000_0000_0000

abbrev pub zero_bits : ℕ
zero_bits = 0

-- The pattern without its sign.
abbrev pub magnitude : ℕ → ℕ
magnitude d = d % sign_bit

-- `std::isfinite`
abbrev pub is_finite : ℕ → Bool
is_finite d = ltb (magnitude d) infinity_bits

abbrev pub is_nan : ℕ → Bool
is_nan d = ltb infinity_bits (magnitude d)

-- The sign is bit 63. The key is a number in the order of the doubles that are no NaN. The two zeros have one key.
unfoldable pub order_key : ℕ → ℕ
order_key d = if (d / sign_bit) % 2 == 0 then sign_bit + magnitude d else sign_bit - magnitude d

-- The comparisons `<=`, `<` and `==` of doubles: false as soon as a NaN takes part.
unfoldable pub le_f64 : ℕ → ℕ → Bool
le_f64 a b = not (is_nan a) && not (is_nan b) && leb (order_key a) (order_key b)

unfoldable pub lt_f64 : ℕ → ℕ → Bool
lt_f64 a b = not (is_nan a) && not (is_nan b) && ltb (order_key a) (order_key b)

unfoldable pub eq_f64 : ℕ → ℕ → Bool
eq_f64 a b = not (is_nan a) && not (is_nan b) && (order_key a == order_key b)

-- `std::min(a, b)` is `b < a ? b : a`, and `std::max(a, b)` is `a < b ? b : a`.
unfoldable pub min_f64 : ℕ → ℕ → ℕ
min_f64 a b = if lt_f64 b a then b else a

unfoldable pub max_f64 : ℕ → ℕ → ℕ
max_f64 a b = if lt_f64 a b then b else a

pub le_f64_refl : (a : ℕ) → is_finite a ≡ true → le_f64 a a ≡ true
unfolding le_f64
le_f64_refl a h = ground arith

pub le_f64_trans : (a b c : ℕ) → le_f64 a b ≡ true → le_f64 b c ≡ true → le_f64 a c ≡ true
unfolding le_f64
le_f64_trans a b c h k = ground arith

-- A comparison that holds or fails settles the one the other way round, where no NaN takes part.
pub not-lt_f64 :
    (a b : ℕ) → is_nan a ≡ false → is_nan b ≡ false → lt_f64 a b ≡ false → le_f64 b a ≡ true
unfolding le_f64 lt_f64
not-lt_f64 a b ha hb h = ground arith

pub le_of_lt_f64 : (a b : ℕ) → lt_f64 a b ≡ true → le_f64 a b ≡ true
unfolding le_f64 lt_f64
le_of_lt_f64 a b h = ground arith

pub min_f64-le_left :
    (a b : ℕ) → is_nan a ≡ false → is_nan b ≡ false → le_f64 (min_f64 a b) a ≡ true
unfolding min_f64 le_f64 lt_f64
min_f64-le_left a b ha hb = ground arith

pub min_f64-le_right :
    (a b : ℕ) → is_nan a ≡ false → is_nan b ≡ false → le_f64 (min_f64 a b) b ≡ true
unfolding min_f64 le_f64 lt_f64
min_f64-le_right a b ha hb = ground arith

pub max_f64-ge_left :
    (a b : ℕ) → is_nan a ≡ false → is_nan b ≡ false → le_f64 a (max_f64 a b) ≡ true
unfolding max_f64 le_f64 lt_f64
max_f64-ge_left a b ha hb = ground arith

pub max_f64-ge_right :
    (a b : ℕ) → is_nan a ≡ false → is_nan b ≡ false → le_f64 b (max_f64 a b) ≡ true
unfolding max_f64 le_f64 lt_f64
max_f64-ge_right a b ha hb = ground arith

negative_zero : eq_f64 sign_bit zero_bits ≡ true
unfolding eq_f64 order_key
negative_zero = refl

infinity_last : lt_f64 negative_infinity infinity_bits ≡ true
unfolding lt_f64 order_key
infinity_last = refl
