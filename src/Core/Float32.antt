-- ===== src/Core/Float32.antt =====
-- An IEEE 754 float as its 32-bit pattern, with the classification and the order of C++.
use usd_pointcloud_plugins.Prelude.{
  ℕ, ◌-◌, ◌+◌, ◌%◌, ◌/◌, Bool, not, ◌&&◌, ltb, leb, ◌==◌, if◌then◌else◌,
}

abbrev pub float_sign_bit : ℕ
float_sign_bit = 0x8000_0000

abbrev pub float_magnitude : ℕ → ℕ
float_magnitude f = f % float_sign_bit

abbrev pub float_is_finite : ℕ → Bool
float_is_finite f = ltb (float_magnitude f) 0x7f80_0000

abbrev pub float_is_nan : ℕ → Bool
float_is_nan f = ltb 0x7f80_0000 (float_magnitude f)

-- A number in the order of the floats that are no NaN.
unfoldable pub float_order_key : ℕ → ℕ
float_order_key f =
    if (f / float_sign_bit) % 2 == 0
    then float_sign_bit + float_magnitude f
    else float_sign_bit - float_magnitude f

unfoldable pub le_f32 : ℕ → ℕ → Bool
le_f32 a b =
    not (float_is_nan a) && not (float_is_nan b) && leb (float_order_key a) (float_order_key b)
