-- ===== src/Cloud/Names.antt =====
-- The names of extra bytes in libs/usd-pointcloud-core/src/PointCloud.cpp: `NormalizeExtraByteNames` and
-- what it uses. A set of names is the list of its members.
pub mod Fixed
pub mod Search
pub mod Unique
use usd_pointcloud_plugins.Prelude.{
  ℕ, zero, suc, ◌+◌, Bool, true, false, not, ◌&&◌, ◌||◌, if◌then◌else◌, leb, ◌==◌, List, [], ◌∷◌,
  ◌++◌, map, Bytes, bytes_eq, is_empty, any_of, length,
}
use usd_pointcloud_plugins.Prelude.Decimal.{decimal}
use usd_pointcloud_plugins.Cloud.Names.Fixed.{reserved_names}

unfoldable pub is_ascii_alpha_numeric : ℕ → Bool
is_ascii_alpha_numeric c =
    (leb b'A' c && leb c b'Z') || (leb b'a' c && leb c b'z') || (leb b'0' c && leb c b'9')

unfoldable pub is_ascii_digit : ℕ → Bool
is_ascii_digit c = leb b'0' c && leb c b'9'

unfoldable pub name_character : ℕ → ℕ
name_character c = if is_ascii_alpha_numeric c || c == b'_' then c else b'_'

abbrev pub extra_name : Bytes
extra_name = b'e' ∷ b'x' ∷ b't' ∷ b'r' ∷ b'a' ∷ []

unfoldable pub start_name : Bytes → Bytes
start_name [] = extra_name
start_name (c ∷ cs) = if is_ascii_digit c then b'_' ∷ c ∷ cs else c ∷ cs

unfoldable pub normalize_extra_byte_name : Bytes → Bytes
normalize_extra_byte_name name = start_name (map name_character name)

unfoldable pub is_used : Bytes → List Bytes → Bool
is_used name used = any_of (λ u. bytes_eq u name) used

unfoldable pub with_suffix : Bytes → ℕ → Bytes
with_suffix base suffix = base ++ b'_' ∷ decimal suffix

-- The loop that looks for a name that is not used yet, on fuel.
unfoldable pub free_name : ℕ → Bytes → ℕ → List Bytes → Bytes → Bytes
free_name zero base suffix used name = name
free_name (suc fuel) base suffix used name =
    let rest = free_name fuel base (suc suffix) used (with_suffix base suffix) in
    if is_used name used then rest else name

-- One more round than there are names in use is enough.
unfoldable pub names_from : List Bytes → List Bytes → List Bytes
names_from used [] = []
names_from used (n ∷ ns) =
    let base = normalize_extra_byte_name n in
    let name = free_name (suc (length used)) base 2 used base in name ∷ names_from (name ∷ used) ns

unfoldable pub normalize_extra_byte_names : List Bytes → List Bytes
normalize_extra_byte_names names = names_from reserved_names names
