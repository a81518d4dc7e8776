-- ===== src/Las/Records/Within.antt =====
-- Where the records that were read stand in the bytes.
use usd_pointcloud_plugins.Prelude.{
  ℕ, zero, suc, ◌+◌, ◌-◌, ◌≤◌, ◌≡◌, refl, sym, ap, ◌∙◌, subst, Bool, true, false, not,
  if◌then◌else◌, leb, List, [], ◌∷◌, Bytes, length, length-take, length-drop, take, drop, String,
  Option, none, some, arith,
}
use usd_pointcloud_plugins.Las.Bytes.{has, read_little}
use usd_pointcloud_plugins.Las.Records.{
  VariableLengthRecord, record_header_length, data_length, record_at, read_records, records_size,
}
use usd_pointcloud_plugins.Las.Records.RoundTrip.{length_width, data_length_is}

abbrev Read : Type 0
Read = List VariableLengthRecord × Option String

both_passed :
    (short cut : Bool) (m k : String) (r : VariableLengthRecord) (later : Read)
    → let first : Read =
        if short then ([], some m) else (if cut then ([], some k) else (r ∷ later.0, later.1)) in
      first.1 ≡ none → (short ≡ false) × (cut ≡ false) × (later.1 ≡ none) × (first.0 ≡ r ∷ later.0)
both_passed true cut m k r later e = cc
both_passed false true m k r later e = cc
both_passed false false m k r later e = (refl, refl, e, refl)

-- From an offset on, the records follow one another in the bytes: the data of each begin behind its
-- header and are as long as the length field at byte 20 of the header says, and the next record begins
-- where they end.
pub data LaidOut (bytes : Bytes) (extended : Bool) : ℕ → List VariableLengthRecord → Type 0 where
  laid_end : (offset : ℕ) → LaidOut bytes extended offset []
  laid_next :
      (offset size : ℕ) (r : VariableLengthRecord) (rs : List VariableLengthRecord)
      → size ≡ read_little (length_width extended) bytes (offset + 20)
      → length r.data_bytes ≡ size
      → offset + record_header_length extended + size ≤ length bytes
      → r.data_bytes ≡ take size (drop (offset + record_header_length extended) bytes)
      → LaidOut bytes extended (offset + record_header_length extended + size) rs
      → LaidOut bytes extended offset (r ∷ rs)

-- Reading from a place inside the bytes: when no error is reported, there are as many records as were
-- asked for, they lie in the bytes with their headers and data, and they are laid out there one behind
-- the other, each with all of the data that its length field declares.
pub read_records-within :
    (bytes : Bytes) (offset count : ℕ) (extended : Bool)
    → offset ≤ length bytes
    → (read_records bytes offset count extended).1 ≡ none
    → let records = (read_records bytes offset count extended).0 in
      (length records ≡ count)
      × (offset + records_size extended records ≤ length bytes)
      × LaidOut bytes extended offset records
unfolding read_records record_at has
read_records-within bytes offset zero extended h e = (refl, omega arith, laid_end offset)
read_records-within bytes offset (suc count) extended h e =
    let start = offset + record_header_length extended in
    let size = data_length bytes offset extended in
    let r = record_at bytes offset extended in
    let (a, b, c, all) =
      both_passed _ _ _ _ r (read_records bytes (start + size) count extended) e in
    let inside = fits offset (record_header_length extended) size a b in
    let whole = taken start size inside in
    let (n, w, l) = read_records-within bytes (start + size) count extended inside c in
    (
      ap length all ∙ ap suc n,
      subst (λ rs. offset + records_size extended rs ≤ length bytes) (sym all)
          (omega (arith, w, whole)),
      subst (LaidOut bytes extended offset) (sym all)
          (laid_next offset size r _ (data_length_is bytes offset extended) whole inside refl l),
    )
  where
    fits :
        (off hl d : ℕ)
        → not (has bytes off hl) ≡ false
        → not (leb d (length bytes - (off + hl))) ≡ false
        → off + hl + d ≤ length bytes
    fits off hl d a b = ground arith

    taken : (s d : ℕ) → s + d ≤ length bytes → length (take d (drop s bytes)) ≡ d
    taken s d h = omega (arith, length-take d (drop s bytes), length-drop s bytes)
