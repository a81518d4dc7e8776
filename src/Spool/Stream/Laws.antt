-- ===== src/Spool/Stream/Laws.antt =====
-- Writing twice is writing what is joined, and what a reader takes off the front of a file.
use usd_pointcloud_plugins.Prelude.{
  ℕ, zero, suc, ◌+◌, ◌-◌, ◌^◌, ◌≤◌, ◌<◌, ◌≡◌, refl, ap, ◌∙◌, true, le→leb, [], ◌∷◌, ◌++◌, Bytes,
  length, take, take-append_length, drop-append_length, length-append, append_assoc, append-nil,
  false, subst, Option, some, arith,
}
use usd_pointcloud_plugins.Prelude.Words.{
  to_bytes, from_bytes, length-to_bytes, from_bytes-to_bytes,
}
use usd_pointcloud_plugins.Spool.Stream.{
  total_room, OutStream, write_bytes, flush_stream, InStream, at, Parse, go_on, ◌>>=◌, pure,
  read_bytes, read_number,
}

take-append_lt : (k : ℕ) (xs ys : Bytes) → k ≤ length xs → take k (xs ++ ys) ≡ take k xs
take-append_lt zero xs ys h = refl
take-append_lt (suc k) [] ys h = absurd (omega arith)
take-append_lt (suc k) (x ∷ xs) ys h = rw (take-append_lt k xs ys (omega arith))

take-append_ge :
    (k : ℕ) (xs ys : Bytes) → length xs ≤ k → take k (xs ++ ys) ≡ xs ++ take (k - length xs) ys
take-append_ge zero [] ys h = refl
take-append_ge zero (x ∷ xs) ys h = absurd (omega arith)
take-append_ge (suc k) [] ys h = let e : suc k - 0 ≡ suc k = omega arith in rw e
take-append_ge (suc k) (x ∷ xs) ys h =
    let e : suc k - length (x ∷ xs) ≡ k - length xs = omega arith in
    rw (e, take-append_ge k xs ys (omega arith))

-- Where a write fails part of it is in the file, so this holds on a full device as well.
pub write_bytes-append :
    (s : OutStream) (xs ys : Bytes) → write_bytes (write_bytes s xs) ys ≡ write_bytes s (xs ++ ys)
unfolding write_bytes
write_bytes-append s xs ys = ground (
  arith,
  length-append xs ys,
  length-append s.content xs,
  append_assoc s.content xs ys,
  append_assoc s.content xs (take (total_room s.device - length s.content - length xs) ys),
  take-append_lt (total_room s.device - length s.content) xs ys,
  take-append_ge (total_room s.device - length s.content) xs ys,
)

pub write_bytes_good :
    (s : OutStream) (xs : Bytes)
    → (write_bytes s xs).good ≡ true
    → (s.good ≡ true) × ((write_bytes s xs).content ≡ s.content ++ xs)
unfolding write_bytes
write_bytes_good s xs h = ground arith

pub write_bytes_fits :
    (s : OutStream) (xs : Bytes)
    → s.good ≡ true
    → length s.content + length xs ≤ total_room s.device
    → write_bytes s xs ≡ record s { content = s.content ++ xs }
unfolding write_bytes
write_bytes_fits s xs g h = rw (g, le→leb _ _ h)

pub flush_stream_room :
    (s : OutStream) → s.good ≡ true → length s.content ≤ s.device.capacity → flush_stream s ≡ s
unfolding flush_stream
flush_stream_room s g h = rw (g, le→leb _ _ h)

pub flush_stream_full :
    (s : OutStream) → s.device.capacity < length s.content → (flush_stream s).good ≡ false
unfolding flush_stream
flush_stream_full s h = ground arith

pub flush_stream_failed : (s : OutStream) → s.good ≡ false → (flush_stream s).good ≡ false
unfolding flush_stream
flush_stream_failed s h = ground arith

-- `m` takes the bytes `bs` off the front of any good stream and gives `a`.
pub record Parses {A : Type 0} (m : Parse A) (a : A) (bs : Bytes) : Type 0 where
  pub run :
      (p : ℕ) (rest : Bytes)
      → ◌≡◌ {A = Option A × InStream} (m (at p (bs ++ rest))) (some a, at (p + length bs) rest)

pub read_bytes-Parses : (bs : Bytes) → Parses (read_bytes (length bs)) bs bs
unfolding read_bytes
read_bytes-Parses bs = record {
  run = λ p rest.
      ground (arith, length-append bs rest, take-append_length bs rest, drop-append_length bs rest);
}

pub Parses-pure : {A : Type 0} (a : A) → Parses (pure a) a []
Parses-pure a = record { run = λ p rest. ground (arith) }

pub bind_step :
    {A B : Type 0} (m : Parse A) (f : A → Parse B) (s : InStream) (a : A) (s' : InStream)
    → ◌≡◌ {A = Option A × InStream} (m s) (some a, s')
    → ◌≡◌ {A = Option B × InStream} ((m >>= f) s) (f a s')
bind_step m f s a s' e = ap (go_on f) e

pub Parses-bind :
    {A B : Type 0} {m : Parse A} (f : A → Parse B) {a : A} {b : B} {bs cs : Bytes}
    → Parses m a bs
    → Parses (f a) b cs
    → Parses (m >>= f) b (bs ++ cs)
Parses-bind {B = B} {m = m} f {a = a} {b = b} {bs = bs} {cs = cs} h k = record {
  run = λ p rest. rw (append_assoc bs cs rest) (
      bind_step m f _ a _ (h.run p (cs ++ rest))
      ∙ k.run (p + length bs) rest
      ∙ ap (λ (n : ℕ). let r : Option B × InStream = (some b, at n rest) in r) (shift p bs cs));
}
  where
    shift : (p : ℕ) (xs ys : Bytes) → p + length xs + length ys ≡ p + length (xs ++ ys)
    shift p xs ys = omega (arith, length-append xs ys)

pub read_bytes_of : (n : ℕ) (bs : Bytes) → length bs ≡ n → Parses (read_bytes n) bs bs
read_bytes_of n bs e = subst (λ k. Parses (read_bytes k) bs bs) e (read_bytes-Parses bs)

pub read_number-Parses : (w n : ℕ) → n < 256 ^ w → Parses (read_number w) n (to_bytes w n)
unfolding read_number
read_number-Parses w n h =
    subst (λ bs. Parses (read_number w) n bs) (append-nil (to_bytes w n))
      (Parses-bind (λ bs. pure (from_bytes bs))
        (read_bytes_of w (to_bytes w n) (length-to_bytes w n))
        (rw (from_bytes-to_bytes w n h) (Parses-pure n)))
