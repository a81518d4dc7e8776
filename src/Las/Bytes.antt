-- ===== src/Las/Bytes.antt =====
-- Reading from the bytes in memory: `Has`, `ReadLittle` and `ReadText` of libs/usd-las/src. Every read
-- of the code stands behind a `Has`; outside the bytes, `read_little` reads what there is.
use usd_pointcloud_plugins.Prelude.{
  ℕ, ◌-◌, Bool, ◌&&◌, if◌then◌else◌, leb, ◌==◌, [], ◌∷◌, Bytes, length, take, drop,
}
use usd_pointcloud_plugins.Prelude.Words.{from_bytes}

unfoldable pub has : Bytes → ℕ → ℕ → Bool
has bytes offset size = leb offset (length bytes) && leb size (length bytes - offset)

-- `ReadLittle<T>` for a type of `w` bytes: its pattern.
unfoldable pub read_little : ℕ → Bytes → ℕ → ℕ
read_little w bytes offset = from_bytes (take w (drop offset bytes))

-- The bytes before the first NUL.
unfoldable pub before_nul : Bytes → Bytes
before_nul [] = []
before_nul (b ∷ bs) = if b == 0 then [] else b ∷ before_nul bs

unfoldable pub read_text : Bytes → ℕ → ℕ → Bytes
read_text bytes offset size = before_nul (take size (drop offset bytes))
