-- ===== src/Las/Format/Layout.antt =====
-- What the layout check of the extra bytes accepts.
use usd_pointcloud_plugins.Prelude.{
  ℕ, zero, suc, ◌+◌, ◌-◌, ◌*◌, ◌^◌, ◌≤◌, ◌<◌, ◌≡◌, refl, Bool, true, false, List, [], ◌∷◌, All, ap,
  ◌∙◌, Option, none, some, ◌↔◌, arith, String, ltb, ◌==◌, ◌||◌, not, if◌then◌else◌,
}
use usd_pointcloud_plugins.Las.Format.{
  ExtraBytesDescriptor, Sized, sized, stopped, extra_bytes_size, check_sized,
  validate_extra_bytes_layout, extra_byte_scalar_size, extra_byte_component_count,
  minimum_record_length, size_max, scalar_type_size, scalar_type,
}

-- The types of the LAS 1.4 specification, and the bytes of one value.
abbrev pub IsKnownType : ExtraBytesDescriptor → Type 0
IsKnownType d = (1 ≤ d.data_type) × (d.data_type ≤ 30)

abbrev pub value_size : ExtraBytesDescriptor → ℕ
value_size d = extra_byte_scalar_size d.data_type * extra_byte_component_count d.data_type

abbrev pub values_size : List ExtraBytesDescriptor → ℕ
values_size [] = 0
values_size (d ∷ ds) = value_size d + values_size ds

scalar_type_size-bounds :
    (s : ℕ) → 1 ≤ s → s ≤ 10 → (1 ≤ scalar_type_size s) × (scalar_type_size s ≤ 8)
unfolding scalar_type_size
scalar_type_size-bounds s h k = (ground arith, ground arith)

scalar_type-bounds : (t : ℕ) → 1 ≤ t → t ≤ 30 → (1 ≤ scalar_type t) × (scalar_type t ≤ 10)
unfolding scalar_type
scalar_type-bounds t h k = (ground arith, ground arith)

count-bounds :
    (t : ℕ)
    → 1 ≤ t
    → t ≤ 30
    → (1 ≤ extra_byte_component_count t) × (extra_byte_component_count t ≤ 3)
unfolding extra_byte_component_count
count-bounds t h k = (ground arith, ground arith)

small_product : (a b : ℕ) → a ≤ 8 → b ≤ 3 → a * b ≤ 24
small_product a zero h k = omega arith
small_product a (suc zero) h k = omega arith
small_product a (suc (suc zero)) h k = omega arith
small_product a (suc (suc (suc zero))) h k = omega arith
small_product a (suc (suc (suc (suc n)))) h k = absurd (omega arith)

known_sizes :
    (t : ℕ)
    → 1 ≤ t
    → t ≤ 30
    → ((extra_byte_scalar_size t == 0 || extra_byte_component_count t == 0) ≡ false)
      × (extra_byte_scalar_size t * extra_byte_component_count t ≤ 24)
unfolding extra_byte_scalar_size
known_sizes t h k =
    let (a, b) = scalar_type-bounds t h k in
    let (c, d) = scalar_type_size-bounds (scalar_type t) a b in
    let (e, f) = count-bounds t h k in (ground arith, small_product _ _ d f)

unknown_sizes :
    (t : ℕ)
    → (extra_byte_scalar_size t == 0 || extra_byte_component_count t == 0) ≡ false
    → (1 ≤ t) × (t ≤ 30)
unfolding extra_byte_component_count
unknown_sizes t h = (ground arith, ground arith)

-- The loop: the size so far and the rest of the descriptors.
extra_bytes_size-known :
    (n : ℕ) (ds : List ExtraBytesDescriptor)
    → All IsKnownType ds
    → n + values_size ds ≤ size_max
    → extra_bytes_size n ds ≡ sized (n + values_size ds)
unfolding extra_bytes_size
extra_bytes_size-known n [] h r = ap sized (omega arith)
extra_bytes_size-known n (d ∷ ds) ((a, b), hs) r =
    let (e, f) = known_sizes d.data_type a b in
    rw (e, room n (value_size d) (values_size ds) r)
      (extra_bytes_size-known (n + value_size d) ds hs (omega arith) ∙ ap sized (omega arith))
  where
    room : (n k m : ℕ) → n + (k + m) ≤ size_max → ltb (size_max - k) n ≡ false
    room n k m h = ground arith

abbrev size_of : Sized → ℕ
size_of (sized n) = n
size_of (stopped m) = 0

first_sized :
    (bad full : Bool) (m k : String) (rest : Sized) (size : ℕ)
    → (if bad then stopped m else (if full then stopped k else rest)) ≡ sized size
    → (bad ≡ false) × (rest ≡ sized size)
first_sized true full m k rest size h = cc
first_sized false true m k rest size h = cc
first_sized false false m k rest size h = (refl, h)

extra_bytes_size-sized :
    (n : ℕ) (ds : List ExtraBytesDescriptor) (size : ℕ)
    → extra_bytes_size n ds ≡ sized size
    → All IsKnownType ds × (size ≡ n + values_size ds)
unfolding extra_bytes_size
extra_bytes_size-sized n [] size h = (tt, omega (arith, ap size_of h))
extra_bytes_size-sized n (d ∷ ds) size h =
    let (good, h') = first_sized _ _ _ _ _ size h in
    let (known, e) = extra_bytes_size-sized (n + value_size d) ds size h' in
    ((unknown_sizes d.data_type good, known), omega (arith, e))

-- Descriptors with a 16-bit record length are accepted if and only if each names one of the thirty
-- types, and the record is exactly the format's own fields and the values described: neither the
-- guards against overflow nor the order of the checks turns away anything else.
pub validate_extra_bytes_layout_iff :
    (format record_length : ℕ) (ds : List ExtraBytesDescriptor)
    → record_length < 2 ^ 16
    → (validate_extra_bytes_layout format record_length ds ≡ none)
      ↔ (All IsKnownType ds × (record_length ≡ minimum_record_length format + values_size ds))
unfolding validate_extra_bytes_layout check_sized
validate_extra_bytes_layout_iff format record_length ds small =
    (forwards (extra_bytes_size 0 ds) refl, backwards)
  where
    forwards :
        (s : Sized)
        → extra_bytes_size 0 ds ≡ s
        → check_sized format record_length s ≡ none
        → All IsKnownType ds × (record_length ≡ minimum_record_length format + values_size ds)
    forwards (stopped m) e h = cc
    forwards (sized size) e h =
        let (known, t) = extra_bytes_size-sized 0 ds size e in
        (known, omega (arith, t, accepted (minimum_record_length format) size _ h))
      where
        accepted :
            (base size : ℕ) (m : String)
            → ◌≡◌ {A = Option String}
                (if ltb (size_max - size) base || not (record_length == base + size)
                  then some m
                  else none)
                none
            → record_length ≡ base + size
        accepted base size m h = ground arith

    backwards :
        All IsKnownType ds × (record_length ≡ minimum_record_length format + values_size ds)
        → check_sized format record_length (extra_bytes_size 0 ds) ≡ none
    backwards (known, e) = rw (
      extra_bytes_size-known 0 ds known (omega arith),
      fine (minimum_record_length format) (values_size ds) e,
    )
      where
        fine :
            (base size : ℕ)
            → record_length ≡ base + size
            → (ltb (size_max - (0 + size)) base || not (record_length == base + (0 + size))) ≡ false
        fine base size h = ground arith
