-- ===== src/Prelude/Decimal.antt =====
-- `std::to_string` of an integer, and the reader that takes it apart again.
use Prim.Native.Nat.{ℕ, zero, suc, ◌+◌, ◌-◌, ◌*◌, ◌/◌, ◌%◌, ◌^◌, ◌≤◌, ◌<◌}
use mathlib.Core.Path.{◌≡◌, refl, ◌∙◌}
use mathlib.Core.Bool.{Bool, false, ◌&&◌}
use mathlib.Core.List.{[], ◌∷◌, ◌++◌, append_assoc}
use native.Mathlib.Omega.{arith}
use usd_pointcloud_plugins.Prelude.Tests.{ltb, leb, ◌==◌, if◌then◌else◌}
use usd_pointcloud_plugins.Prelude.Lists.{Bytes}
use usd_pointcloud_plugins.Prelude.Int.{ℤ, pos, negsuc, IsI64}

-- The decimal digits of `n` below 10 ^ (f + 1).
unfoldable pub digits : ℕ → ℕ → Bytes
digits zero n = (48 + n % 10) ∷ []
digits (suc f) n =
    let front = digits f (n / 10) in
    if ltb n 10 then (48 + n) ∷ [] else (front ++ (48 + n % 10) ∷ [])

-- Twenty digits are enough for 64 bits.
abbrev pub IsU64 : ℕ → Type 0
IsU64 n = n < 0x1_0000_0000_0000_0000

unfoldable pub decimal : ℕ → Bytes
decimal n = digits 19 n

unfoldable pub decimal_ℤ : ℤ → Bytes
decimal_ℤ (pos n) = decimal n
decimal_ℤ (negsuc n) = b'-' ∷ decimal (suc n)

abbrev pub is_digit : ℕ → Bool
is_digit c = leb b'0' c && leb c b'9'

-- The number at the front of a text, with the text behind it.
unfoldable pub read_number : ℕ → Bytes → ℕ × Bytes
read_number acc [] = (acc, [])
read_number acc (c ∷ cs) =
    let rest = read_number (acc * 10 + (c - 48)) cs in if is_digit c then rest else (acc, c ∷ cs)

read_digits :
    (f n : ℕ) (rest : Bytes)
    → n < 10 ^ suc f
    → read_number 0 (digits f n ++ rest) ≡ read_number n rest
unfolding digits read_number
read_digits zero n rest h = ground arith
read_digits (suc f) n rest h = ground (
  arith,
  append_assoc (digits f (n / 10)) ((48 + n % 10) ∷ []) rest,
  read_digits f (n / 10) ((48 + n % 10) ∷ rest),
)

-- The text ends, or goes on with something that is no digit.
abbrev pub StopsNumber : Bytes → Type 0
StopsNumber [] = Unit {0}
StopsNumber (c ∷ cs) = is_digit c ≡ false

read_number_stops : (n : ℕ) (rest : Bytes) → StopsNumber rest → read_number n rest ≡ (n, rest)
unfolding read_number
read_number_stops n [] h = refl
read_number_stops n (c ∷ cs) h = ground arith

pub read_number-decimal :
    (n : ℕ) (rest : Bytes)
    → IsU64 n
    → StopsNumber rest
    → read_number 0 (decimal n ++ rest) ≡ (n, rest)
unfolding decimal
read_number-decimal n rest h s = read_digits 19 n rest (omega arith) ∙ read_number_stops n rest s

digits_start : (f n : ℕ) → (c : ℕ) × (cs : Bytes) × (digits f n ≡ c ∷ cs) × (48 ≤ c)
unfolding digits
digits_start zero n = (_, _, refl, omega arith)
digits_start (suc f) n = elim (usd_pointcloud_plugins.Prelude.Tests.Bool-cases (ltb n 10)) [
  | mathlib.Core.Logic.inl h ↦ (48 + n, [], rw h, omega arith)
  | mathlib.Core.Logic.inr h ↦
      let (c, cs, e, b) = digits_start f (n / 10) in (c, cs ++ (48 + n % 10) ∷ [], rw h (rw e), b)
]

-- The integer at the front of a text, with the text behind it.
unfoldable pub read_integer : Bytes → ℤ × Bytes
read_integer [] = (pos 0, [])
read_integer (c ∷ cs) =
    if c == b'-'
    then (let (n, rest) = read_number 0 cs in (negsuc (n - 1), rest))
    else (let (n, rest) = read_number 0 (c ∷ cs) in (pos n, rest))

read_integer_unsigned :
    (text : Bytes) (c : ℕ) (cs : Bytes) (n : ℕ) (rest : Bytes)
    → text ≡ c ∷ cs
    → 48 ≤ c
    → read_number 0 text ≡ (n, rest)
    → read_integer text ≡ (pos n, rest)
unfolding read_integer
read_integer_unsigned [] c cs n rest e b h = cc
read_integer_unsigned (d ∷ ds) c cs n rest e b h = ground arith

pub read_integer-decimal_ℤ :
    (z : ℤ) (rest : Bytes)
    → IsI64 z
    → StopsNumber rest
    → read_integer (decimal_ℤ z ++ rest) ≡ (z, rest)
unfolding decimal_ℤ
read_integer-decimal_ℤ (pos n) rest h s =
    let (c, cs, e, b) = digits_start 19 n in
    read_integer_unsigned (decimal n ++ rest) c (cs ++ rest) n rest (unfold decimal in rw e) b
      (read_number-decimal n rest (omega arith) s)
read_integer-decimal_ℤ (negsuc n) rest h s =
    unfold read_integer in rw (read_number-decimal (suc n) rest (omega arith) s) (ground arith)
