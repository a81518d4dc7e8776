-- ===== src/Core/CacheKey.antt =====
-- libs/usd-geo-core/src/CacheKey.cpp: the cache key of a list of named arguments.
pub mod Stable
use usd_pointcloud_plugins.Prelude.{
  ℕ, zero, suc, ◌+◌, ◌*◌, ◌/◌, ◌%◌, ◌^◌, bit_xor, Bool, true, false, ◌||◌, ◌&&◌, if◌then◌else◌, ltb,
  leb, ◌==◌, Bytes, List, [], ◌∷◌, ◌++◌, map, length,
}
use mathlib.Core.List.{reverse}
use usd_pointcloud_plugins.Prelude.Decimal.{decimal}
use usd_pointcloud_plugins.Prelude.Sort.{sort_by, pair_less}

abbrev pub CacheArguments : Type 0
CacheArguments = List (Bytes × Bytes)

-- The characters " \t\r\n".
unfoldable pub is_blank : ℕ → Bool
is_blank c = c == b' ' || c == 9 || c == 13 || c == 10

unfoldable pub skip_blanks : Bytes → Bytes
skip_blanks [] = []
skip_blanks (c ∷ cs) = if is_blank c then skip_blanks cs else c ∷ cs

-- From the first to the last character that is not blank.
unfoldable pub trim : Bytes → Bytes
trim value = reverse (skip_blanks (reverse (skip_blanks value)))

-- `std::tolower` of the "C" locale.
unfoldable pub to_lower : ℕ → ℕ
to_lower c = if leb b'A' c && leb c b'Z' then c + 32 else c

unfoldable pub normalize_name : Bytes → Bytes
normalize_name value = map to_lower (trim value)

-- The entries in order, names trimmed and in lower case, values trimmed.
unfoldable pub normalized_arguments : CacheArguments → CacheArguments
normalized_arguments arguments =
    sort_by pair_less (map (λ p. (normalize_name p.0, trim p.1)) arguments)

-- `name.size() ':' name value.size() ':' value ';'` for each entry.
pub encode_arguments : CacheArguments → Bytes
encode_arguments [] = []
encode_arguments ((name, value) ∷ rest) =
    decimal (length name)
    ++ (b':'
        ∷ (name ++ (decimal (length value) ++ (b':' ∷ (value ++ (b';' ∷ encode_arguments rest))))))

pub normalize_cache_arguments : CacheArguments → Bytes
normalize_cache_arguments arguments = encode_arguments (normalized_arguments arguments)

abbrev offset_basis : ℕ
offset_basis = 14695981039346656037

abbrev prime : ℕ
prime = 1099511628211

-- `hash ^= character; hash *= prime;` in 64 bits.
hash_bytes : ℕ → Bytes → ℕ
hash_bytes hash [] = hash
hash_bytes hash (c ∷ cs) = hash_bytes (bit_xor hash c * prime % 2 ^ 64) cs

hex_digit : ℕ → ℕ
hex_digit d = if ltb d 10 then 48 + d else 87 + d

-- The lowest `n` hexadecimal digits of a number, highest first.
hex : ℕ → ℕ → Bytes
hex zero h = []
hex (suc n) h = hex n (h / 16) ++ hex_digit (h % 16) ∷ []

pub stable_cache_key : CacheArguments → Bytes
stable_cache_key arguments = hex 16 (hash_bytes offset_basis (normalize_cache_arguments arguments))
