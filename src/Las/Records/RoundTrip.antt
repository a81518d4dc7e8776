-- ===== src/Las/Records/RoundTrip.antt =====
-- The records of a file that has their layout.
use usd_pointcloud_plugins.Prelude.{
  ℕ, zero, suc, ◌+◌, ◌-◌, ◌^◌, ◌≤◌, ◌<◌, ◌≡◌, refl, sym, ap, ◌∙◌, subst, Bool, true, false, ◌&&◌,
  if◌then◌else◌, leb, ◌==◌, List, [], ◌∷◌, ◌++◌, append_assoc, Bytes, length, length-append, take,
  drop, take-append_length, drop-append_length, replicate, All, String, Option, none, arith,
}
use usd_pointcloud_plugins.Prelude.Words.{
  to_bytes, from_bytes, length-to_bytes, from_bytes-to_bytes,
}
use usd_pointcloud_plugins.Las.Bytes.{has, read_little, read_text, before_nul}
use usd_pointcloud_plugins.Las.Records.{
  VariableLengthRecord, record_header_length, data_length, record_at, read_records,
}

-- Reading what stands behind `pre`.
take_at :
    (pre x rest : Bytes) (offset w : ℕ)
    → offset ≡ length pre
    → w ≡ length x
    → take w (drop offset (pre ++ (x ++ rest))) ≡ x
take_at pre x rest offset w e f =
    rw (e, f, drop-append_length pre (x ++ rest)) (take-append_length x rest)

read_little_at :
    (pre rest : Bytes) (offset w n : ℕ)
    → offset ≡ length pre
    → n < 256 ^ w
    → read_little w (pre ++ (to_bytes w n ++ rest)) offset ≡ n
unfolding read_little
read_little_at pre rest offset w n e h =
    ap from_bytes (take_at pre (to_bytes w n) rest offset w e (sym (length-to_bytes w n)))
    ∙ from_bytes-to_bytes w n h

-- A text in a field of `n` bytes.
abbrev pub padded : ℕ → Bytes → Bytes
padded n t = t ++ replicate (n - length t) 0

abbrev pub IsText : ℕ → Bytes → Type 0
IsText n t = (length t ≤ n) × All (λ b. 0 < b) t

length-replicate : (n : ℕ) → length {A = ℕ} (replicate n 0) ≡ n
length-replicate zero = refl
length-replicate (suc n) = ap suc (length-replicate n)

length-padded : (n : ℕ) (t : Bytes) → IsText n t → length (padded n t) ≡ n
length-padded n t h =
    omega
      (arith, length-append t (replicate (n - length t) 0), length-replicate (n - length t), h.0)

before_nul-zeros : (n : ℕ) → before_nul (replicate n 0) ≡ []
unfolding before_nul
before_nul-zeros zero = refl
before_nul-zeros (suc n) = refl

before_nul-padded : (t : Bytes) (n : ℕ) → All (λ b. 0 < b) t → before_nul (t ++ replicate n 0) ≡ t
unfolding before_nul
before_nul-padded [] n h = before_nul-zeros n
before_nul-padded (b ∷ t) n (h, hs) = rw (not_nul b h, before_nul-padded t n hs)
  where
    not_nul : (b : ℕ) → 0 < b → (b == 0) ≡ false
    not_nul b h = ground arith

read_text_at :
    (pre t rest : Bytes) (offset n : ℕ)
    → offset ≡ length pre
    → IsText n t
    → read_text (pre ++ (padded n t ++ rest)) offset n ≡ t
unfolding read_text
read_text_at pre t rest offset n e h =
    ap before_nul (take_at pre (padded n t) rest offset n e (sym (length-padded n t h)))
    ∙ before_nul-padded t (n - length t) h.1

-- The layout of a record.
abbrev pub length_width : Bool → ℕ
length_width extended = if extended then 8 else 2

pub record FitsRecord (extended : Bool) (r : VariableLengthRecord) : Type 0 where
  pub user_id : IsText 16 r.user_id
  pub record_id : r.record_id < 2 ^ 16
  pub description : IsText 32 r.description
  pub data_bytes : length r.data_bytes < 256 ^ length_width extended
  pub is_extended : r.is_extended ≡ extended

unfoldable pub record_bytes : Bool → VariableLengthRecord → Bytes
record_bytes extended r =
    (0 ∷ 0 ∷ [])
    ++ (padded 16 r.user_id
        ++ (to_bytes 2 r.record_id
            ++ (to_bytes (length_width extended) (length r.data_bytes)
                ++ (padded 32 r.description ++ r.data_bytes))))

unfoldable pub records_bytes : Bool → List VariableLengthRecord → Bytes
records_bytes extended [] = []
records_bytes extended (r ∷ rs) = record_bytes extended r ++ records_bytes extended rs

pub data_length_is :
    (bytes : Bytes) (offset : ℕ) (extended : Bool)
    → data_length bytes offset extended ≡ read_little (length_width extended) bytes (offset + 20)
unfolding data_length
data_length_is bytes offset true = refl
data_length_is bytes offset false = refl

description_offset : (extended : Bool) → (if extended then 28 else 22) ≡ 20 + length_width extended
description_offset true = refl
description_offset false = refl

header_length : (extended : Bool) → record_header_length extended ≡ 52 + length_width extended
header_length true = refl
header_length false = refl

module _ (extended : Bool) (r : VariableLengthRecord) (fits : FitsRecord extended r)
    (pre rest : Bytes) (offset : ℕ) (start : offset ≡ length pre) where
  abbrev file : Bytes
  file = pre ++ (record_bytes extended r ++ rest)

  abbrev size_bytes : Bytes
  size_bytes = to_bytes (length_width extended) (length r.data_bytes)

  header_sizes :
      (length (padded 16 r.user_id) ≡ 16)
      × (length (to_bytes 2 r.record_id) ≡ 2)
      × (length size_bytes ≡ length_width extended)
      × (length (padded 32 r.description) ≡ 32)
  header_sizes = (
    length-padded 16 r.user_id fits.user_id,
    length-to_bytes 2 r.record_id,
    length-to_bytes (length_width extended) (length r.data_bytes),
    length-padded 32 r.description fits.description,
  )

  at_user_id :
      file
      ≡ (pre ++ (0 ∷ 0 ∷ []))
        ++ (padded 16 r.user_id
            ++ (to_bytes 2 r.record_id
                ++ (size_bytes ++ (padded 32 r.description ++ (r.data_bytes ++ rest)))))
  unfolding record_bytes
  at_user_id = simp append_assoc

  at_record_id :
      file
      ≡ (pre ++ ((0 ∷ 0 ∷ []) ++ padded 16 r.user_id))
        ++ (to_bytes 2 r.record_id
            ++ (size_bytes ++ (padded 32 r.description ++ (r.data_bytes ++ rest))))
  unfolding record_bytes
  at_record_id = simp append_assoc

  at_length :
      file
      ≡ (pre ++ ((0 ∷ 0 ∷ []) ++ (padded 16 r.user_id ++ to_bytes 2 r.record_id)))
        ++ (size_bytes ++ (padded 32 r.description ++ (r.data_bytes ++ rest)))
  unfolding record_bytes
  at_length = simp append_assoc

  at_description :
      file
      ≡ (pre ++ ((0 ∷ 0 ∷ []) ++ (padded 16 r.user_id ++ (to_bytes 2 r.record_id ++ size_bytes))))
        ++ (padded 32 r.description ++ (r.data_bytes ++ rest))
  unfolding record_bytes
  at_description = simp append_assoc

  header : Bytes
  header =
      pre
      ++ ((0 ∷ 0 ∷ [])
          ++ (padded 16 r.user_id
              ++ (to_bytes 2 r.record_id ++ (size_bytes ++ padded 32 r.description))))

  at_data : file ≡ header ++ (r.data_bytes ++ rest)
  unfolding record_bytes header
  at_data = simp append_assoc

  lengths :
      (length (pre ++ (0 ∷ 0 ∷ [])) ≡ offset + 2)
      × (length (pre ++ ((0 ∷ 0 ∷ []) ++ padded 16 r.user_id)) ≡ offset + 18)
      × (length (pre ++ ((0 ∷ 0 ∷ []) ++ (padded 16 r.user_id ++ to_bytes 2 r.record_id)))
          ≡ offset + 20)
      × (length (
            pre
            ++ ((0 ∷ 0 ∷ []) ++ (padded 16 r.user_id ++ (to_bytes 2 r.record_id ++ size_bytes))))
          ≡ offset + (20 + length_width extended))
      × (length header ≡ offset + record_header_length extended)
  unfolding header
  lengths =
      let (a, b, c, d) = header_sizes in
      let e = header_length extended in
      let u = padded 16 r.user_id in
      let i = to_bytes 2 r.record_id in
      let t = padded 32 r.description in
      (
        omega (arith, start, length-append pre (0 ∷ 0 ∷ [])),
        omega (arith, start, a, length-append pre ((0 ∷ 0 ∷ []) ++ u)),
        omega (arith, start, a, b, length-append pre ((0 ∷ 0 ∷ []) ++ (u ++ i)), length-append u i),
        omega (
          arith,
          start,
          a,
          b,
          c,
          length-append pre ((0 ∷ 0 ∷ []) ++ (u ++ (i ++ size_bytes))),
          length-append u (i ++ size_bytes),
          length-append i size_bytes,
        ),
        omega (
          arith,
          start,
          a,
          b,
          c,
          d,
          e,
          length-append pre ((0 ∷ 0 ∷ []) ++ (u ++ (i ++ (size_bytes ++ t)))),
          length-append u (i ++ (size_bytes ++ t)),
          length-append i (size_bytes ++ t),
          length-append size_bytes t,
        ),
      )

  data_length_at : data_length file offset extended ≡ length r.data_bytes
  data_length_at =
      data_length_is file offset extended
      ∙ (rw at_length (
          read_little_at _ (padded 32 r.description ++ (r.data_bytes ++ rest)) (offset + 20)
            (length_width extended) (length r.data_bytes) (sym lengths.2) fits.data_bytes))

  record_at_lem : record_at file offset extended ≡ r
  unfolding record_at
  record_at_lem = cc (
    ap (λ f. read_text f (offset + 2) 16) at_user_id
        ∙ read_text_at _ r.user_id _ (offset + 2) 16 (sym lengths.0) fits.user_id,
    ap (λ f. read_little 2 f (offset + 18)) at_record_id
        ∙ read_little_at _ _ (offset + 18) 2 r.record_id (sym lengths.1) fits.record_id,
    ap (λ n. read_text file (offset + n) 32) (description_offset extended)
        ∙ (ap (λ f. read_text f (offset + (20 + length_width extended)) 32) at_description
            ∙ read_text_at _ r.description _ (offset + (20 + length_width extended)) 32
                (sym lengths.3) fits.description),
    ap (λ n. take n (drop (offset + record_header_length extended) file)) data_length_at
        ∙ (ap (λ f. take (length r.data_bytes) (drop (offset + record_header_length extended) f))
              at_data
            ∙ take_at header r.data_bytes rest (offset + record_header_length extended)
                (length r.data_bytes) (sym lengths.4) refl),
    fits.is_extended,
  )

  room :
      (has file offset (record_header_length extended) ≡ true)
      × (leb (length r.data_bytes) (length file - (offset + record_header_length extended)) ≡ true)
  unfolding has
  room =
      let total = ap length at_data ∙ length-append header (r.data_bytes ++ rest) in
      let more = length-append r.data_bytes rest in
      let (a, b) =
        enough (length file) (length header) offset (record_header_length extended)
          (length r.data_bytes) (length rest) (omega (arith, total, more)) lengths.4 in
      (a, b)
    where
      enough :
          (all head off hl d k : ℕ)
          → all ≡ head + (d + k)
          → head ≡ off + hl
          → ((leb off all && leb hl (all - off)) ≡ true) × (leb d (all - (off + hl)) ≡ true)
      enough all head off hl d k h e = (ground arith, ground arith)

  length-next :
      length (pre ++ record_bytes extended r)
      ≡ offset + record_header_length extended + length r.data_bytes
  unfolding header record_bytes
  length-next =
      let joined : pre ++ record_bytes extended r ≡ header ++ r.data_bytes = simp append_assoc in
      omega (arith, ap length joined, length-append header r.data_bytes, lengths.4)

read_records_step :
    (file : Bytes) (offset n : ℕ) (extended : Bool) (r : VariableLengthRecord)
    (rs : List VariableLengthRecord)
    → has file offset (record_header_length extended) ≡ true
    → data_length file offset extended ≡ length r.data_bytes
    → leb (length r.data_bytes) (length file - (offset + record_header_length extended)) ≡ true
    → record_at file offset extended ≡ r
    → ◌≡◌ {A = List VariableLengthRecord × Option String}
        (read_records file
          (offset + record_header_length extended + length r.data_bytes)
          n
          extended)
        (rs, none)
    → ◌≡◌ {A = List VariableLengthRecord × Option String}
        (read_records file offset (suc n) extended)
        (r ∷ rs, none)
unfolding read_records
read_records_step file offset n extended r rs a size b at later = rw (size, a, b, at, later) refl

-- From any place of a file, the layout of records whose fields fit it (texts without NUL, 16-bit
-- identifiers, data as long as the length field can say) is read back: the same records, as many
-- as there are, with no error.
pub read_records-records_bytes :
    (extended : Bool) (records : List VariableLengthRecord) (pre rest : Bytes)
    → All (FitsRecord extended) records
    → ◌≡◌ {A = List VariableLengthRecord × Option String}
        (read_records
          (pre ++ (records_bytes extended records ++ rest))
          (length pre)
          (length records)
          extended)
        (records, none)
unfolding read_records records_bytes
read_records-records_bytes extended [] pre rest h = refl
read_records-records_bytes extended (r ∷ records) pre rest (f, fs) =
    let rest' = records_bytes extended records ++ rest in
    let (a, b) = room extended r f pre rest' (length pre) refl in
    let at = record_at_lem extended r f pre rest' (length pre) refl in
    let size = data_length_at extended r f pre rest' (length pre) refl in
    let next = length-next extended r f pre rest' (length pre) refl in
    let file = append_assoc pre (record_bytes extended r) rest' in
    let later : ◌≡◌ {A = List VariableLengthRecord × Option String}
        (read_records (pre ++ (record_bytes extended r ++ rest'))
          (length pre + record_header_length extended + length r.data_bytes) (length records)
          extended)
        (records, none) =
      rw (file, next) at
        (read_records-records_bytes extended records (pre ++ record_bytes extended r) rest fs) in
    subst
      (λ (f : Bytes).
        ◌≡◌ {A = List VariableLengthRecord × Option String}
          (read_records (pre ++ f) (length pre) (suc (length records)) extended)
          (r ∷ records, none))
      (sym (append_assoc (record_bytes extended r) (records_bytes extended records) rest))
      (read_records_step (pre ++ (record_bytes extended r ++ rest')) (length pre) (length records)
        extended r records a size b at later)
