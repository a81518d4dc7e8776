-- ===== src/Las/Point/Extras.antt =====
-- The layout check of a file answers for the decoding of each point: the extra bytes that it accepts are
-- found in every record.
use usd_pointcloud_plugins.Prelude.{
  ℕ, zero, suc, ◌+◌, ◌-◌, ◌*◌, ◌≤◌, ◌≡◌, refl, ap, subst, Bool, true, false, ◌||◌, ltb, le→leb,
  ◌==◌, List, [], ◌∷◌, Bytes, length, Bool-cases, inl, inr, none, arith,
}
use usd_pointcloud_plugins.Core.Bounds.{vec_is_finite}
use usd_pointcloud_plugins.Las.Bytes.{has}
use usd_pointcloud_plugins.Las.Format.{
  ExtraBytesDescriptor, Sized, sized, stopped, size_max, extra_bytes_size, check_sized,
  validate_extra_bytes_layout, minimum_record_length, extra_byte_scalar_size,
  extra_byte_component_count,
}
use usd_pointcloud_plugins.Las.Header.{LasHeader}
use usd_pointcloud_plugins.Las.Point.{
  LasPoint, DecodeError, invalid_record, unsupported_type, truncated_extra, inexact_integer,
  non_finite_value, non_finite_coordinate, ExtraValues, values, failed, fail_when, then_values,
  decode_components, decode_extras, Decoded, decoded, undecoded, finish_point, record_is_usable,
  decode_point, decode_fields,
}

-- An error that speaks of a value, and not of the layout.
abbrev pub is_value_error : DecodeError → Bool
is_value_error invalid_record = false
is_value_error unsupported_type = false
is_value_error truncated_extra = false
is_value_error inexact_integer = true
is_value_error non_finite_value = true
is_value_error non_finite_coordinate = true

abbrev sound : ExtraValues → Bool
sound (values vs) = true
sound (failed e) = is_value_error e

sound-fail_when :
    (b : Bool) (e : DecodeError) (rest : ExtraValues)
    → is_value_error e ≡ true
    → sound rest ≡ true
    → sound (fail_when b e rest) ≡ true
unfolding fail_when
sound-fail_when true e rest h k = h
sound-fail_when false e rest h k = k

sound-then_values :
    (v : ExtraValues) (rest : List ℕ → ExtraValues)
    → sound v ≡ true
    → ((vs : List ℕ) → sound (rest vs) ≡ true)
    → sound (then_values v rest) ≡ true
unfolding then_values
sound-then_values (values vs) rest h k = k vs
sound-then_values (failed e) rest h k = h

abbrev size_of : Sized → ℕ
size_of (sized n) = n
size_of (stopped m) = 0

abbrev is_sized : Sized → Bool
is_sized (sized n) = true
is_sized (stopped m) = false

has_room : (r : Bytes) (offset size : ℕ) → offset + size ≤ length r → has r offset size ≡ true
unfolding has
has_room r offset size h = ground (
  arith,
  le→leb offset (length r) (omega (arith, h)),
  le→leb size (length r - offset) (omega (arith, h)),
)

module _ (to_double : ℕ → ℕ → ℕ) (affine : ℕ → ℕ → ℕ → ℕ) where
  sound-decode_components :
      (d : ExtraBytesDescriptor) (r : Bytes) (at i left : ℕ) (before : List ℕ)
      → sound (decode_components to_double affine d r at i left before) ≡ true
  unfolding decode_components
  sound-decode_components d r at i zero before = refl
  sound-decode_components d r at i (suc left) before =
      sound-fail_when _ inexact_integer _ refl
        (sound-fail_when _ non_finite_value _ refl (sound-decode_components d r at (suc i) left _))

  sound-decode_extras :
      (ds : List ExtraBytesDescriptor) (r : Bytes) (base size total : ℕ) (before : List ℕ)
      → extra_bytes_size size ds ≡ sized total
      → base + total ≤ length r
      → (size ≤ total) × (sound (decode_extras to_double affine ds r (base + size) before) ≡ true)
  unfolding extra_bytes_size decode_extras fail_when
  sound-decode_extras [] r base size total before e h = (omega (arith, ap size_of e), refl)
  sound-decode_extras (d ∷ ds) r base size total before e h =
      let scalar = extra_byte_scalar_size d.data_type in
      let count = extra_byte_component_count d.data_type in
      elim (Bool-cases (scalar == 0 || count == 0)) [
        | inl bad ↦ (let e' = rw bad at e in ground (arith, ap is_sized e'))
        | inr good ↦ elim (Bool-cases (ltb (size_max - scalar * count) size)) [
          | inl large ↦ (let e' = rw (good, large) at e in ground (arith, ap is_sized e'))
          | inr fits ↦
              (let e' = rw (good, fits) at e in
                let rest = λ (vs : List ℕ).
                  sound-decode_extras ds r base (size + scalar * count) total vs e' h in
                let here =
                  has_room r (base + size) (scalar * count) (omega (arith, h, (rest []).0)) in
                let moved : base + (size + scalar * count) ≡ base + size + scalar * count =
                  omega arith in
                (
                  omega (arith, (rest []).0),
                  rw (good, here)
                      (sound-then_values
                        (decode_components to_double affine d r (base + size) 0 count before) _
                        (sound-decode_components d r (base + size) 0 count before)
                        (λ vs.
                          subst (λ at. sound (decode_extras to_double affine ds r at vs) ≡ true)
                            moved (rest vs).1)),
                ))
        ]
      ]

layout_total :
    (format record_length : ℕ) (v : Sized)
    → check_sized format record_length v ≡ none
    → (v ≡ sized (size_of v)) × (record_length ≡ minimum_record_length format + size_of v)
unfolding check_sized
layout_total format record_length (stopped m) h = ground arith
layout_total format record_length (sized n) h = (refl, ground arith)

abbrev pub value_error_only : Decoded → Bool
value_error_only (decoded p) = true
value_error_only (undecoded e) = is_value_error e

finish-value_error_only :
    (p : LasPoint) (v : ExtraValues) → sound v ≡ true → value_error_only (finish_point p v) ≡ true
unfolding finish_point
finish-value_error_only p (failed e) h = h
finish-value_error_only p (values vs) h = elim (Bool-cases (vec_is_finite p.source_position)) [
  | inl e ↦ rw e refl
  | inr e ↦ rw e refl
]

usable-length :
    (h : LasHeader) (r : Bytes) → record_is_usable h r ≡ true → h.point_record_length ≤ length r
unfolding record_is_usable
usable-length h r e = ground (arith, e)

-- When `ValidateExtraBytesLayout` accepted the descriptors of a header, every record that is as long as the
-- header says and whose header is valid either decodes or fails on a value that it holds: the decoding
-- meets no unsupported type, no missing extra byte and no record that is too short.
pub decode_point-validate_extra_bytes_layout :
    (coordinate : ℕ → ℕ → ℕ → ℕ) (to_double : ℕ → ℕ → ℕ) (affine : ℕ → ℕ → ℕ → ℕ) (h : LasHeader)
    (descriptors : List ExtraBytesDescriptor) (r : Bytes)
    → validate_extra_bytes_layout h.point_format h.point_record_length descriptors ≡ none
    → record_is_usable h r ≡ true
    → value_error_only (decode_point coordinate to_double affine h descriptors r) ≡ true
unfolding decode_point validate_extra_bytes_layout
decode_point-validate_extra_bytes_layout coordinate to_double affine h descriptors r layout usable =
    let total =
      layout_total h.point_format h.point_record_length (extra_bytes_size 0 descriptors) layout in
    let base = minimum_record_length h.point_format in
    let extras =
      (sound-decode_extras to_double affine descriptors r base 0
        (size_of (extra_bytes_size 0 descriptors)) [] total.0
        (omega (arith, total.1, usable-length h r usable))).1 in
    let moved : base + 0 ≡ base = omega arith in
    rw usable (
      finish-value_error_only (decode_fields coordinate h r) _ (
        subst (λ at. sound (decode_extras to_double affine descriptors r at []) ≡ true) moved
          extras))
