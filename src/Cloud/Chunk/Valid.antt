-- ===== src/Cloud/Chunk/Valid.antt =====
-- The chunk that `MakePointChunk` makes of points is valid.
use usd_pointcloud_plugins.Prelude.{
  ℕ, ◌<◌, ◌≡◌, refl, sym, ap, ◌∙◌, Bool, true, false, not, ◌&&◌, ◌||◌, ltb, ◌==◌, List, [], ◌∷◌,
  ◌++◌, map, Bytes, bytes_eq, is_empty, any_of, all_of, all_of-append, length, Bool-cases, and_true,
  inl, inr, arith,
}
use usd_pointcloud_plugins.Core.Bounds.{SpatialBounds, bounds_is_valid}
use usd_pointcloud_plugins.Cloud.Attribute.{PointAttribute, attribute_is_valid}
use usd_pointcloud_plugins.Cloud.PointData.{PointData}
use usd_pointcloud_plugins.Cloud.Names.{is_used, normalize_extra_byte_names}
use usd_pointcloud_plugins.Cloud.Names.Fixed.{
  reserved_names, xyz_name, waveform_data_file_name, intensity_name, return_number_name,
  number_of_returns_name, classification_name, classification_flags_name, scanner_channel_name,
  scan_direction_flag_name, edge_of_flight_line_name, user_data_name, scan_angle_name,
  point_source_id_name, red_name, green_name, blue_name, nir_name, gps_time_name,
  waveform_descriptor_index_name, waveform_data_offset_name, waveform_packet_size_name,
  return_point_waveform_location_name, waveform_xt_name, waveform_yt_name, waveform_zt_name,
  waveform_data_external_name,
}
use usd_pointcloud_plugins.Cloud.Names.Unique.{
  distinct, is_identifier, normalize_extra_byte_names-distinct,
}
use usd_pointcloud_plugins.Cloud.Chunk.{
  names_differ, point_chunk_is_valid, Column, add_columns, columns, first_component_count,
  but_first, extra_attributes, make_point_chunk,
}

abbrev names_of : List PointAttribute → List Bytes
names_of l = map (λ a. a.name) l

abbrev column_names : List Column → List Bytes
column_names l = map (λ c. c.attribute.name) l

abbrev fixed_names : List Bytes
fixed_names =
    intensity_name ∷ return_number_name ∷ number_of_returns_name ∷ classification_name
    ∷ classification_flags_name ∷ scanner_channel_name ∷ scan_direction_flag_name
    ∷ edge_of_flight_line_name ∷ user_data_name ∷ scan_angle_name ∷ point_source_id_name ∷ red_name
    ∷ green_name ∷ blue_name ∷ nir_name ∷ gps_time_name ∷ waveform_descriptor_index_name
    ∷ waveform_data_offset_name ∷ waveform_packet_size_name ∷ return_point_waveform_location_name
    ∷ waveform_xt_name ∷ waveform_yt_name ∷ waveform_zt_name ∷ waveform_data_external_name ∷ []

abbrev absent : Bytes → List Bytes → Bool
absent n l = not (is_used n l)

names_differ-distinct : (l : List PointAttribute) → names_differ l ≡ distinct (names_of l)
unfolding names_differ distinct is_used
names_differ-distinct [] = refl
names_differ-distinct (a ∷ l) = cc (any_of-names a l, names_differ-distinct l)
  where
    any_of-names :
        (a : PointAttribute) (l : List PointAttribute)
        → any_of (λ o. bytes_eq o.name a.name) l ≡ any_of (λ u. bytes_eq u a.name) (names_of l)
    any_of-names a [] = refl
    any_of-names a (b ∷ l) = ap (λ t. bytes_eq b.name a.name || t) (any_of-names a l)

is_used-append : (n : Bytes) (a b : List Bytes) → is_used n (a ++ b) ≡ (is_used n a || is_used n b)
unfolding is_used
is_used-append n [] b = refl
is_used-append n (x ∷ a) b = ground (arith, is_used-append n a b)

distinct-append :
    (a b : List Bytes)
    → distinct a ≡ true
    → distinct b ≡ true
    → all_of (λ u. absent u b) a ≡ true
    → distinct (a ++ b) ≡ true
unfolding distinct
distinct-append [] b h k l = k
distinct-append (x ∷ a) b h k l =
    ground
      (arith, is_used-append x a b, distinct-append a b (ground (arith, h)) k (ground (arith, l)))

absent-add_columns :
    (n : Bytes) (cs : List Column)
    → is_used n (column_names cs) ≡ false
    → is_used n (names_of (add_columns cs)) ≡ false
unfolding is_used add_columns
absent-add_columns n [] h = refl
absent-add_columns n (c ∷ cs) h = elim (Bool-cases (c.size == 0)) [
  | inl e ↦ rw e (absent-add_columns n cs (ground (arith, h)))
  | inr e ↦ rw e (ground (arith, h, absent-add_columns n cs))
]

distinct-add_columns :
    (cs : List Column)
    → distinct (column_names cs) ≡ true
    → distinct (names_of (add_columns cs)) ≡ true
unfolding distinct add_columns
distinct-add_columns [] h = refl
distinct-add_columns (c ∷ cs) h = elim (Bool-cases (c.size == 0)) [
  | inl e ↦ rw e (distinct-add_columns cs (ground (arith, h)))
  | inr e ↦
      rw
        (
          e,
          absent-add_columns c.attribute.name cs (ground (arith, h)),
          distinct-add_columns cs (ground (arith, h)),
        )
        refl
]

all_of-add_columns :
    (p : Bytes → Bool) (cs : List Column)
    → all_of p (column_names cs) ≡ true
    → all_of p (names_of (add_columns cs)) ≡ true
unfolding add_columns
all_of-add_columns p [] h = refl
all_of-add_columns p (c ∷ cs) h = elim (Bool-cases (c.size == 0)) [
  | inl e ↦ rw e (all_of-add_columns p cs (ground (arith, h)))
  | inr e ↦ rw e (ground (arith, h, all_of-add_columns p cs))
]

extra_left_out : Bool → List ℕ → List ℕ → Bool
extra_left_out one v counts =
    is_empty v
    || ltb (first_component_count one counts) 1
    || ltb 3 (first_component_count one counts)

absent-extra_attributes :
    (n : Bytes) (one : Bool) (vs : List (List ℕ)) (ns : List Bytes) (counts : List ℕ)
    → is_used n ns ≡ false
    → is_used n (names_of (extra_attributes one vs ns counts)) ≡ false
unfolding is_used extra_attributes extra_left_out
absent-extra_attributes n one [] ns counts h = refl
absent-extra_attributes n one (v ∷ vs) [] counts h = refl
absent-extra_attributes n one (v ∷ vs) (m ∷ ns) counts h =
    elim (Bool-cases (extra_left_out one v counts)) [
      | inl e ↦ rw e (absent-extra_attributes n one vs ns (but_first counts) (ground (arith, h)))
      | inr e ↦ rw e (ground (arith, h, absent-extra_attributes n one vs ns (but_first counts)))
    ]

distinct-extra_attributes :
    (one : Bool) (vs : List (List ℕ)) (ns : List Bytes) (counts : List ℕ)
    → distinct ns ≡ true
    → distinct (names_of (extra_attributes one vs ns counts)) ≡ true
unfolding distinct extra_attributes extra_left_out
distinct-extra_attributes one [] ns counts h = refl
distinct-extra_attributes one (v ∷ vs) [] counts h = refl
distinct-extra_attributes one (v ∷ vs) (m ∷ ns) counts h =
    elim (Bool-cases (extra_left_out one v counts)) [
      | inl e ↦ rw e (distinct-extra_attributes one vs ns (but_first counts) (ground (arith, h)))
      | inr e ↦
          rw
            (
              e,
              absent-extra_attributes m one vs ns (but_first counts) (ground (arith, h)),
              distinct-extra_attributes one vs ns (but_first counts) (ground (arith, h)),
            )
            refl
    ]

all_of-extra_attributes :
    (p : Bytes → Bool) (one : Bool) (vs : List (List ℕ)) (ns : List Bytes) (counts : List ℕ)
    → all_of p ns ≡ true
    → all_of p (names_of (extra_attributes one vs ns counts)) ≡ true
unfolding extra_attributes extra_left_out
all_of-extra_attributes p one [] ns counts h = refl
all_of-extra_attributes p one (v ∷ vs) [] counts h = refl
all_of-extra_attributes p one (v ∷ vs) (m ∷ ns) counts h =
    elim (Bool-cases (extra_left_out one v counts)) [
      | inl e ↦ rw e (all_of-extra_attributes p one vs ns (but_first counts) (ground (arith, h)))
      | inr e ↦ rw e (ground (arith, h, all_of-extra_attributes p one vs ns (but_first counts)))
    ]

columns-fixed_names : (d : PointData) → column_names (columns d) ≡ fixed_names
unfolding columns
columns-fixed_names d = refl

fixed_names-distinct : distinct fixed_names ≡ true
unfolding distinct is_used
fixed_names-distinct = refl

-- The fixed names are reserved.
fixed_of_reserved :
    (p : Bytes → Bool) → all_of p reserved_names ≡ true → all_of p fixed_names ≡ true
fixed_of_reserved p h =
    let parts =
      (and_true (p xyz_name) (all_of p (fixed_names ++ waveform_data_file_name ∷ [])) h).1 in
    (and_true (all_of p fixed_names) (all_of p (waveform_data_file_name ∷ []))
      (sym (all_of-append p fixed_names (waveform_data_file_name ∷ [])) ∙ parts)).0

all_of-weaker :
    (p q : Bytes → Bool) (l : List Bytes)
    → ((n : Bytes) → p n ≡ true → q n ≡ true)
    → all_of p l ≡ true
    → all_of q l ≡ true
all_of-weaker p q [] f h = refl
all_of-weaker p q (n ∷ l) f h =
    let (now, later) = and_true (p n) (all_of p l) h in
    rw (f n now, all_of-weaker p q l f later) refl

is_identifier-filled : (n : Bytes) → is_identifier n ≡ true → not (is_empty n) ≡ true
unfolding is_identifier
is_identifier-filled [] h = h
is_identifier-filled (c ∷ cs) h = refl

attributes_valid :
    (l : List PointAttribute)
    → all_of attribute_is_valid l ≡ all_of (λ n. not (is_empty n)) (names_of l)
unfolding attribute_is_valid
attributes_valid [] = refl
attributes_valid (a ∷ l) = ap (λ b. not (is_empty a.name) && b) (attributes_valid l)

names_of-append : (a b : List PointAttribute) → names_of (a ++ b) ≡ names_of a ++ names_of b
names_of-append [] b = refl
names_of-append (x ∷ a) b = ap (λ l. x.name ∷ l) (names_of-append a b)

-- Names of columns and of extra bytes, each distinct and apart from each other, are distinct together.
chunk_names :
    (cs : List Column) (one : Bool) (vs : List (List ℕ)) (ns : List Bytes) (counts : List ℕ)
    → distinct (column_names cs) ≡ true
    → distinct ns ≡ true
    → all_of (λ u. absent u ns) (column_names cs) ≡ true
    → names_differ (add_columns cs ++ extra_attributes one vs ns counts) ≡ true
chunk_names cs one vs ns counts c d e =
    let extra = extra_attributes one vs ns counts in
    let apart =
      all_of-weaker (λ u. absent u ns) (λ u. absent u (names_of extra)) (names_of (add_columns cs))
        (λ n h. ground (arith, h, absent-extra_attributes n one vs ns counts))
        (all_of-add_columns (λ u. absent u ns) cs e) in
    names_differ-distinct (add_columns cs ++ extra)
    ∙ ap distinct (names_of-append (add_columns cs) extra)
    ∙ distinct-append (names_of (add_columns cs)) (names_of extra) (distinct-add_columns cs c)
        (distinct-extra_attributes one vs ns counts d) apart

chunk_attributes :
    (cs : List Column) (one : Bool) (vs : List (List ℕ)) (ns : List Bytes) (counts : List ℕ)
    → all_of (λ n. not (is_empty n)) (column_names cs) ≡ true
    → all_of is_identifier ns ≡ true
    → all_of attribute_is_valid (add_columns cs ++ extra_attributes one vs ns counts) ≡ true
chunk_attributes cs one vs ns counts c d =
    let extra = extra_attributes one vs ns counts in
    let filled = all_of-weaker is_identifier (λ n. not (is_empty n)) ns is_identifier-filled d in
    attributes_valid (add_columns cs ++ extra)
    ∙ ap (all_of (λ n. not (is_empty n))) (names_of-append (add_columns cs) extra)
    ∙ all_of-append (λ n. not (is_empty n)) (names_of (add_columns cs)) (names_of extra)
    ∙ rw
        (
          all_of-add_columns (λ n. not (is_empty n)) cs c,
          all_of-extra_attributes (λ n. not (is_empty n)) one vs ns counts filled,
        )
        refl

length_filled {ℓ} : {A : Type ℓ} (l : List A) → is_empty l ≡ false → (length l == 0) ≡ false
length_filled [] e = ground arith
length_filled (a ∷ l) e = ground arith

-- The chunk that `MakePointChunk` makes of at least one point with valid bounds is valid, whatever the names of
-- the extra bytes are: all attributes have a name, and no two the same.
pub make_point_chunk-point_chunk_is_valid :
    (d : PointData) (bounds : SpatialBounds)
    → is_empty d.positions ≡ false
    → bounds_is_valid bounds ≡ true
    → length d.extra_byte_names < 0xffff_ffff_ffff_ff00
    → point_chunk_is_valid (make_point_chunk d bounds) ≡ true
unfolding point_chunk_is_valid make_point_chunk
make_point_chunk-point_chunk_is_valid d bounds some valid few =
    let one = is_empty d.extra_byte_component_counts in
    let ns = normalize_extra_byte_names d.extra_byte_names in
    let (size, unique, free, good) = normalize_extra_byte_names-distinct d.extra_byte_names few in
    let fixed = columns-fixed_names d in
    rw
      (
        length_filled d.positions some,
        valid,
        chunk_attributes (columns d) one d.extra_bytes ns d.extra_byte_component_counts
            (ap (all_of (λ n. not (is_empty n))) fixed ∙ refl) good,
        chunk_names (columns d) one d.extra_bytes ns d.extra_byte_component_counts
            (ap distinct fixed ∙ fixed_names-distinct) unique
            (ap (all_of (λ u. absent u ns)) fixed ∙ fixed_of_reserved (λ u. absent u ns) free),
      )
      refl
