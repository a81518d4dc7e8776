-- ===== src/Prelude/Words.antt =====
-- The bytes of a number in memory, lowest first, and the number that bytes stand for.
use Prim.Native.Nat.{ℕ, zero, suc, ◌+◌, ◌*◌, ◌/◌, ◌%◌, ◌^◌, ◌<◌}
use mathlib.Core.Path.{◌≡◌, refl, ap}
use mathlib.Core.List.{[], ◌∷◌}
use native.Mathlib.Omega.{arith}
use usd_pointcloud_plugins.Prelude.Lists.{Bytes, length, All}

unfoldable pub to_bytes : ℕ → ℕ → Bytes
to_bytes zero n = []
to_bytes (suc w) n = n % 256 ∷ to_bytes w (n / 256)

unfoldable pub from_bytes : Bytes → ℕ
from_bytes [] = 0
from_bytes (b ∷ bs) = b + 256 * from_bytes bs

pub length-to_bytes : (w n : ℕ) → length (to_bytes w n) ≡ w
unfolding to_bytes
length-to_bytes zero n = refl
length-to_bytes (suc w) n = ap suc (length-to_bytes w (n / 256))

pub from_bytes-to_bytes : (w n : ℕ) → n < 256 ^ w → from_bytes (to_bytes w n) ≡ n
unfolding to_bytes from_bytes
from_bytes-to_bytes zero n h = omega arith
from_bytes-to_bytes (suc w) n h = omega (arith, from_bytes-to_bytes w (n / 256) (shrink w n h))
  where
    shrink : (w n : ℕ) → n < 256 ^ suc w → n / 256 < 256 ^ w
    shrink w n h = omega arith

abbrev pub IsByte : ℕ → Type 0
IsByte b = b < 256

grow : (b v k : ℕ) → b < 256 → v < 256 ^ k → b + 256 * v < 256 ^ suc k
grow b v k h m = omega arith

pub from_bytes-lt : (bs : Bytes) → All IsByte bs → from_bytes bs < 256 ^ length bs
unfolding from_bytes
from_bytes-lt [] h = omega arith
from_bytes-lt (b ∷ bs) h = grow b (from_bytes bs) (length bs) h.0 (from_bytes-lt bs h.1)
