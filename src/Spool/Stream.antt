-- ===== src/Spool/Stream.antt =====
-- The file streams that the spool is written to and read from: a buffered `std::ofstream` on a device with
-- a capacity, and `std::ifstream` on the bytes of a file. A stream that failed once stays failed.
-- `Write` and `Read` of Spool.cpp move the bytes of one number of `w` bytes.
pub mod Laws
use usd_pointcloud_plugins.Prelude.{
  ℕ, zero, suc, ◌+◌, ◌-◌, ◌≤◌, ◌≡◌, refl, Bool, true, false, ◌&&◌, if◌then◌else◌, leb, List, [],
  ◌∷◌, ◌++◌, Bytes, length, take, drop, Option, none, some, arith,
}
use usd_pointcloud_plugins.Prelude.Words.{to_bytes, from_bytes}

-- The bytes that a device can hold, and those beyond them that the stream in front of it takes before a
-- write fails, since they wait in its buffer.
pub record Device : Type 0 where
  pub capacity : ℕ
  pub buffer : ℕ

abbrev pub total_room : Device → ℕ
total_room d = d.capacity + d.buffer

pub record OutStream : Type 0 where
  pub good : Bool
  pub content : Bytes
  pub device : Device

-- What fits neither the device nor the buffer is lost, and the stream fails.
unfoldable pub write_bytes : OutStream → Bytes → OutStream
write_bytes s bs =
    if s.good
    then (if leb (length s.content + length bs) (total_room s.device)
        then record s { content = s.content ++ bs }
        else record s {
          good = false;
          content = s.content ++ take (total_room s.device - length s.content) bs;
        })
    else s

-- `stream.flush()`: what waits in the buffer goes to the device, and the stream fails where that is full.
unfoldable pub flush_stream : OutStream → OutStream
flush_stream s =
    if s.good
    then (if leb (length s.content) s.device.capacity
        then s
        else record s { good = false; content = take s.device.capacity s.content })
    else s

-- `Write(stream, value)` for a value of `w` bytes.
unfoldable pub write_number : ℕ → ℕ → OutStream → OutStream
write_number w n s = write_bytes s (to_bytes w n)

pub record InStream : Type 0 where
  pub good : Bool
  pub position : ℕ
  pub rest : Bytes

abbrev pub file_end : InStream → ℕ
file_end s = s.position + length s.rest

abbrev pub at : ℕ → Bytes → InStream
at position rest = record { good = true; position = position; rest = rest }

-- A step of a reader: a value, or `none` where the code gives up, and the stream behind it.
abbrev pub Parse {ℓ} : Type ℓ → Type ℓ
Parse A = InStream → Option A × InStream

abbrev pub go_on {ℓ κ} :
    {A : Type ℓ} {B : Type κ} → (A → Parse B) → Option A × InStream → Option B × InStream
go_on f (none, s) = (none, s)
go_on f (some a, s) = f a s

infixl 5 ◌>>=◌ ◌>>◌
abbrev pub ◌>>=◌ {ℓ κ} : {A : Type ℓ} {B : Type κ} → Parse A → (A → Parse B) → Parse B
◌>>=◌ m f s = go_on f (m s)

abbrev pub ◌>>◌ {ℓ} : {B : Type ℓ} → Parse (Unit {0}) → Parse B → Parse B
m >> k = m >>= λ _. k

abbrev pub pure {ℓ} : {A : Type ℓ} → A → Parse A
pure a s = (some a, s)

-- Gives up on a value that was read, with the stream as it is.
abbrev pub require : Bool → Parse (Unit {0})
require b s = if b then (some tt, s) else (none, s)

-- `stream.read(p, n)`: all of the bytes, or the stream fails.
unfoldable pub read_bytes : ℕ → Parse Bytes
read_bytes n s =
    if s.good && leb n (length s.rest)
    then (some (take n s.rest), record s { position = s.position + n; rest = drop n s.rest })
    else (none, record s { good = false })

-- `Read(stream, value)` for a value of `w` bytes.
unfoldable pub read_number : ℕ → Parse ℕ
read_number w = do bs ← read_bytes w; pure (from_bytes bs)
