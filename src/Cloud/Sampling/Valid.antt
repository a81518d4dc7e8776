-- ===== src/Cloud/Sampling/Valid.antt =====
-- A sample of valid point data is valid.
use native.Mathlib.Nat.{mul-le-mul_right}
use usd_pointcloud_plugins.Prelude.{
  ℕ, suc, ◌*◌, ◌^◌, ◌≤◌, ◌<◌, ◌≡◌, refl, sym, ap, ◌∙◌, subst, Bool, true, false, ◌&&◌, ◌||◌, ◌==◌,
  eqb_refl, is_empty, List, [], ◌∷◌, length, length-append, length-map, length-take, length-drop,
  take, drop, All, arith, and_true, Bool-cases, inl, inr,
}
use usd_pointcloud_plugins.Core.Diagnostic.{Checked, ok, err}
use usd_pointcloud_plugins.Cloud.PointData.{
  PointData, has_point_count_or_is_empty, has_valid_extra_byte_values, component_counts,
  extra_byte_values_valid, columns_have_count, columns_come_together, extra_bytes_valid,
  point_data_is_valid,
}
use usd_pointcloud_plugins.Cloud.Sampling.{
  SamplingOptions, options_are_valid, source_indices, sample_attribute, sample_components,
  sample_extra_byte_attribute, sample_extra_bytes, sampled, sample_point_data, origin,
}
use usd_pointcloud_plugins.Cloud.Sampling.Stride.{length-source_indices, All-lt}

-- A column of a sample of `n` points, of at least one.
has_count-sample :
    (values indices : List ℕ)
    → has_point_count_or_is_empty (sample_attribute 0 values indices) (length indices) ≡ true
unfolding has_point_count_or_is_empty sample_attribute
has_count-sample [] indices = refl
has_count-sample (x ∷ values) indices =
    rw (length-map _ indices, eqb_refl (length indices)) (or_true _)
  where
    or_true : (b : Bool) → (b || true) ≡ true
    or_true true = refl
    or_true false = refl

is_empty-sample {ℓ} :
    {A : Type ℓ} (d : A) (values : List A) (i : ℕ) (indices : List ℕ)
    → is_empty (sample_attribute d values (i ∷ indices)) ≡ is_empty values
unfolding sample_attribute
is_empty-sample d [] i indices = refl
is_empty-sample d (x ∷ values) i indices = refl

columns_have_count-sampled :
    (d : PointData) (indices : List ℕ)
    → columns_have_count (sampled d indices) (length indices) ≡ true
unfolding columns_have_count sampled
columns_have_count-sampled d indices =
    rw
      (
        has_count-sample d.intensity indices,
        has_count-sample d.return_number indices,
        has_count-sample d.number_of_returns indices,
        has_count-sample d.classification indices,
        has_count-sample d.classification_flags indices,
        has_count-sample d.scanner_channel indices,
        has_count-sample d.scan_direction_flag indices,
        has_count-sample d.edge_of_flight_line indices,
        has_count-sample d.user_data indices,
        has_count-sample d.scan_angle indices,
        has_count-sample d.point_source_id indices,
        has_count-sample d.red indices,
        has_count-sample d.green indices,
        has_count-sample d.blue indices,
        has_count-sample d.nir indices,
        has_count-sample d.gps_time indices,
        has_count-sample d.waveform_descriptor_index indices,
        has_count-sample d.waveform_data_offset indices,
        has_count-sample d.waveform_packet_size indices,
        has_count-sample d.return_point_waveform_location indices,
        has_count-sample d.waveform_xt indices,
        has_count-sample d.waveform_yt indices,
        has_count-sample d.waveform_zt indices,
        has_count-sample d.waveform_data_external indices,
      )
      refl

columns_come_together-sampled :
    (d : PointData) (i : ℕ) (indices : List ℕ)
    → columns_come_together (sampled d (i ∷ indices)) ≡ columns_come_together d
unfolding columns_come_together sampled
columns_come_together-sampled d i indices =
    rw
      (
        is_empty-sample 0 d.return_number i indices,
        is_empty-sample 0 d.number_of_returns i indices,
        is_empty-sample 0 d.red i indices,
        is_empty-sample 0 d.green i indices,
        is_empty-sample 0 d.blue i indices,
        is_empty-sample 0 d.waveform_descriptor_index i indices,
        is_empty-sample 0 d.waveform_data_offset i indices,
        is_empty-sample 0 d.waveform_packet_size i indices,
        is_empty-sample 0 d.return_point_waveform_location i indices,
        is_empty-sample 0 d.waveform_xt i indices,
        is_empty-sample 0 d.waveform_yt i indices,
        is_empty-sample 0 d.waveform_zt i indices,
        is_empty-sample 0 d.waveform_data_external i indices,
      )
      refl

length-sample_components :
    (source : List ℕ) (n c : ℕ) (indices : List ℕ)
    → length source ≡ n * c
    → All (λ i. i < n) indices
    → length (sample_components source c indices) ≡ length indices * c
unfolding sample_components
length-sample_components source n c [] e h = omega arith
length-sample_components source n c (i ∷ indices) e (h, hs) =
    let inside : suc i * c ≤ n * c = mul-le-mul_right c h in
    omega (
      arith,
      e,
      length-append (take c (drop (i * c) source)) (sample_components source c indices),
      length-take c (drop (i * c) source),
      length-drop (i * c) source,
      length-sample_components source n c indices e hs,
    )

module _ (n : ℕ) (indices : List ℕ) (inside : All (λ i. i < n) indices)
    (fewer : length indices ≤ n) where
  has_valid-sample :
      (c : ℕ) (values : List ℕ)
      → has_valid_extra_byte_values n c values ≡ true
      → has_valid_extra_byte_values
          (length indices)
          c
          (sample_extra_byte_attribute values c indices)
        ≡ true
  unfolding has_valid_extra_byte_values sample_extra_byte_attribute
  has_valid-sample c [] h = h
  has_valid-sample c (x ∷ values) h =
      let size : length (x ∷ values) ≡ n * c = ground arith in
      let taken = length-sample_components (x ∷ values) n c indices size inside in
      ground (arith, taken)

  values_valid-sample :
      (counts : List ℕ) (columns : List (List ℕ))
      → extra_byte_values_valid n counts columns ≡ true
      → extra_byte_values_valid (length indices) counts (sample_extra_bytes counts columns indices)
        ≡ true
  unfolding extra_byte_values_valid sample_extra_bytes
  values_valid-sample [] columns h = refl
  values_valid-sample (c ∷ counts) [] h = refl
  values_valid-sample (c ∷ counts) (values ∷ columns) h =
      let (a, b) = and_true _ _ h in
      rw (has_valid-sample c values a, values_valid-sample counts columns b) refl

component_counts-sample :
    (counts : List ℕ) (columns : List (List ℕ)) (indices : List ℕ)
    → let sample = sample_extra_bytes (component_counts counts columns) columns indices in
      (length sample ≡ length columns)
      × (component_counts counts sample ≡ component_counts counts columns)
unfolding component_counts sample_extra_bytes
component_counts-sample counts [] indices = (refl, refl)
component_counts-sample [] (values ∷ columns) indices =
    let (a, b) = component_counts-sample [] columns indices in (ap suc a, ap (λ cs. 1 ∷ cs) b)
component_counts-sample (c ∷ counts) (values ∷ columns) indices =
    let (a, b) = component_counts-sample counts columns indices in (ap suc a, ap (λ cs. c ∷ cs) b)

extra_bytes_valid-sampled :
    (d : PointData) (n : ℕ) (indices : List ℕ)
    → All (λ i. i < n) indices
    → length indices ≤ n
    → extra_bytes_valid d n ≡ true
    → extra_bytes_valid (sampled d indices) (length indices) ≡ true
unfolding extra_bytes_valid sampled
extra_bytes_valid-sampled d n indices inside fewer h =
    let (ab, c) =
      and_true
        (length d.extra_byte_names == length d.extra_bytes
          && (is_empty d.extra_byte_component_counts
              || length d.extra_byte_component_counts == length d.extra_bytes))
        _ h in
    let (size, same) =
      component_counts-sample d.extra_byte_component_counts d.extra_bytes indices in
    rw (size, same, ab) (values_valid-sample n indices inside fewer _ d.extra_bytes c)

length-sample_attribute {ℓ} :
    {A : Type ℓ} (d : A) (values : List A) (indices : List ℕ)
    → 0 < length values
    → length (sample_attribute d values indices) ≡ length indices
unfolding sample_attribute
length-sample_attribute d [] indices h = absurd (omega arith)
length-sample_attribute d (x ∷ values) indices h = length-map _ indices

all_four : (a b c e : Bool) → a ≡ true → b ≡ true → c ≡ true → e ≡ true → (a && b && c && e) ≡ true
all_four a b c e ha hb hc he = rw (ha, hb, hc, he) refl

length-positions :
    (d : PointData) (is : List ℕ)
    → 0 < length d.positions
    → length (sampled d is).positions ≡ length is
unfolding sampled
length-positions d is h = length-sample_attribute origin d.positions is h

depth-sampled :
    (d : PointData) (is : List ℕ)
    → (d.color_bit_depth == 8 || d.color_bit_depth == 16) ≡ true
    → ((sampled d is).color_bit_depth == 8 || (sampled d is).color_bit_depth == 16) ≡ true
unfolding sampled
depth-sampled d is h = h

sampled-IsValid :
    (d : PointData) (indices : List ℕ)
    → 0 < length indices
    → length indices ≤ length d.positions
    → All (λ i. i < length d.positions) indices
    → point_data_is_valid d ≡ true
    → point_data_is_valid (sampled d indices) ≡ true
unfolding point_data_is_valid
sampled-IsValid d [] some_point fewer inside h = absurd (omega arith)
sampled-IsValid d (i ∷ indices) some_point fewer inside h =
    let (abc, e) =
      and_true
        ((d.color_bit_depth == 8 || d.color_bit_depth == 16)
          && columns_have_count d (length d.positions)
          && extra_bytes_valid d (length d.positions))
        (columns_come_together d) h in
    let (ab, c) =
      and_true
        ((d.color_bit_depth == 8 || d.color_bit_depth == 16)
          && columns_have_count d (length d.positions))
        (extra_bytes_valid d (length d.positions)) abc in
    let (a, b) =
      and_true (d.color_bit_depth == 8 || d.color_bit_depth == 16)
        (columns_have_count d (length d.positions)) ab in
    let size = sym (length-positions d (i ∷ indices) (omega arith)) in
    all_four _ _ _ _ (depth-sampled d (i ∷ indices) a)
      (subst (λ n. columns_have_count (sampled d (i ∷ indices)) n ≡ true) size
        (columns_have_count-sampled d (i ∷ indices)))
      (subst (λ n. extra_bytes_valid (sampled d (i ∷ indices)) n ≡ true) size
        (extra_bytes_valid-sampled d (length d.positions) (i ∷ indices) inside fewer c))
      (columns_come_together-sampled d i indices ∙ e)

options-target :
    (o : SamplingOptions) (count : ℕ)
    → options_are_valid o count ≡ true
    → (0 < o.target_point_count) × (o.target_point_count ≤ count)
unfolding options_are_valid
options-target o count h = (ground arith, ground arith)

-- Whenever the sampling succeeds, on points few enough for the 64-bit products, the sampled data is valid
-- as the source was, every column included, and has the number of points asked for.
pub sample_point_data-IsValid :
    (d s : PointData) (o : SamplingOptions)
    → o.target_point_count * length d.positions ≤ 2 ^ 64
    → sample_point_data d o ≡ ok s
    → (point_data_is_valid s ≡ true) × (length s.positions ≡ o.target_point_count)
unfolding sample_point_data
sample_point_data-IsValid d s o fits e =
    let n = length d.positions in
    let target = o.target_point_count in
    elim (Bool-cases (point_data_is_valid d)) [
      | inr bad ↦ (let e' : err _ ≡ ok s = rw bad at e in cc)
      | inl valid ↦ elim (Bool-cases (options_are_valid o n)) [
        | inr bad ↦ (let e' : err _ ≡ ok s = rw (valid, bad) at e in cc)
        | inl fine ↦
            (let e' : ok (sampled d (source_indices n target 0 target)) ≡ ok s =
                rw (valid, fine) at e in
              let (a, b) = options-target o n fine in
              let size = length-source_indices n target 0 target in
              let inside = All-lt n target a b fits 0 target (omega arith) in
              subst (λ x. (point_data_is_valid x ≡ true) × (length x.positions ≡ target))
                (ap value e')
                (
                  sampled-IsValid d (source_indices n target 0 target) (omega (arith, size))
                      (omega (arith, size)) inside valid,
                  length-positions d (source_indices n target 0 target) (omega arith) ∙ size,
                ))
      ]
    ]
  where
    value : Checked PointData → PointData
    value (ok x) = x
    value (err ds) = d
