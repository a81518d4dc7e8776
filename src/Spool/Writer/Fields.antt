-- ===== src/Spool/Writer/Fields.antt =====
-- What each part of the writer puts into the file, on any device.
use native.Mathlib.Decide.{dec_le}
use usd_pointcloud_plugins.Prelude.{
  ◌+◌, ◌%◌, ◌^◌, ◌≤◌, ◌<◌, ◌≡◌, refl, ap, ◌∙◌, Bool, true, false, le→leb, List, [], ◌∷◌, ◌++◌,
  Bytes, length, length-append, append-nil, append_assoc, All, arith, some,
}
use usd_pointcloud_plugins.Prelude.Words.{to_bytes}
use usd_pointcloud_plugins.Core.Bounds.{Vec3d}
use usd_pointcloud_plugins.Core.TileId.{TileId}
use usd_pointcloud_plugins.Cloud.Attribute.{
  PointAttributeType, PointAttribute, int32, int16, uint8, uint16, uint32, uint64, float32, float64,
  float64_vec2, float64_vec3,
}
use usd_pointcloud_plugins.Spool.Stream.{Device, total_room, OutStream, write_bytes, write_number}
use usd_pointcloud_plugins.Spool.Stream.Laws.{write_bytes-append, write_bytes_fits}
use usd_pointcloud_plugins.Spool.Schema.{
  SpoolSchema, SpoolAttributeValue, int32_value, int16_value, uint8_value, uint16_value,
  uint32_value, uint64_value, float32_value, float64_value, vec2_value, vec3_value, value_index,
  type_code, write_attribute,
}
use usd_pointcloud_plugins.Spool.Layout.{
  value_bytes, vec_bytes, values_bytes, FitsValues, attribute_bytes, attributes_bytes,
  preamble_bytes,
}
use usd_pointcloud_plugins.Spool.Writer.{
  write_string, write_schema, write_preamble, write_vec, write_attributes,
}

pub write_attribute-value :
    (t : PointAttributeType) (v : SpoolAttributeValue) (s : OutStream)
    → value_index v ≡ type_code t
    → write_attribute t v s ≡ some (write_bytes s (value_bytes v))
unfolding write_attribute value_index type_code value_bytes write_number
write_attribute-value int32 (int32_value v) s e = refl
write_attribute-value int16 (int16_value v) s e = refl
write_attribute-value uint8 (uint8_value v) s e = refl
write_attribute-value uint16 (uint16_value v) s e = refl
write_attribute-value uint32 (uint32_value v) s e = refl
write_attribute-value uint64 (uint64_value v) s e = refl
write_attribute-value float32 (float32_value v) s e = refl
write_attribute-value float64 (float64_value v) s e = refl
write_attribute-value float64_vec2 (vec2_value x y) s e = ap some (write_bytes-append s _ _)
write_attribute-value float64_vec3 (vec3_value x y z) s e = ap some (
    ap (λ u. write_bytes u (to_bytes 8 z)) (write_bytes-append s _ _)
    ∙ write_bytes-append s _ _
    ∙ ap (write_bytes s) (append_assoc (to_bytes 8 x) (to_bytes 8 y) (to_bytes 8 z)))
write_attribute-value _ _ s e = absurd (omega arith)

pub write_vec-bytes : (v : Vec3d) (s : OutStream) → write_vec v s ≡ write_bytes s (vec_bytes v)
unfolding write_vec vec_bytes write_number
write_vec-bytes v s =
    ap (λ u. write_bytes u (to_bytes 8 v.z)) (write_bytes-append s _ _)
    ∙ write_bytes-append s _ _
    ∙ ap (write_bytes s) (append_assoc (to_bytes 8 v.x) (to_bytes 8 v.y) (to_bytes 8 v.z))

pub write_preamble-bytes :
    (tile : TileId) (schema : SpoolSchema) (s : OutStream)
    → schema.coordinate_space < 2 ^ 8
    → length schema.attributes < 2 ^ 32
    → write_preamble tile schema s ≡ write_bytes s (preamble_bytes tile schema)
unfolding write_preamble preamble_bytes write_number
write_preamble-bytes tile schema s h k =
    let space : schema.coordinate_space % 2 ^ 8 ≡ schema.coordinate_space = omega arith in
    let count : length schema.attributes % 2 ^ 32 ≡ length schema.attributes = omega arith in
    simp (space, count, write_bytes-append, append_assoc)

write_string-bytes :
    (name : Bytes) (s : OutStream)
    → length name ≤ 0xffff_ffff
    → write_string name s ≡ write_bytes s (to_bytes 4 (length name) ++ name)
unfolding write_string write_number
write_string-bytes name s h = rw (le→leb _ _ h) (write_bytes-append s _ _)

attribute_written :
    (a : PointAttribute) (s : OutStream)
    → length a.name ≤ 0xffff_ffff
    → write_number 1 (type_code a.type) (write_string a.name s) ≡ write_bytes s (attribute_bytes a)
unfolding write_number attribute_bytes
attribute_written a s h = simp (write_string-bytes a.name s h, write_bytes-append, append_assoc)

-- A good stream that wrote `content` on a device.
abbrev pub on : Bytes → Device → OutStream
on content device = record { good = true; content = content; device = device }

pub write_bytes_room :
    (c : Bytes) (k : Device) (bs : Bytes)
    → length c + length bs ≤ total_room k
    → write_bytes (on c k) bs ≡ on (c ++ bs) k
write_bytes_room c k bs h = write_bytes_fits (on c k) bs refl h

pub write_bytes_full :
    (c : Bytes) (k : Device) (bs : Bytes)
    → total_room k < length c + length bs
    → (write_bytes (on c k) bs).good ≡ false
unfolding write_bytes
write_bytes_full c k bs h = ground arith

-- Room for two parts is room for the first, and then for the second.
pub room_first :
    (c : Bytes) (k : Device) (bs cs : Bytes)
    → length c + length (bs ++ cs) ≤ total_room k
    → length c + length bs ≤ total_room k
room_first c k bs cs h = omega (arith, length-append bs cs)

pub room_then :
    (c : Bytes) (k : Device) (bs cs : Bytes)
    → length c + length (bs ++ cs) ≤ total_room k
    → length (c ++ bs) + length cs ≤ total_room k
room_then c k bs cs h = omega (arith, length-append bs cs, length-append c bs)

pub full_then :
    (c : Bytes) (k : Device) (bs cs : Bytes)
    → total_room k < length c + length (bs ++ cs)
    → total_room k < length (c ++ bs) + length cs
full_then c k bs cs h = omega (arith, length-append bs cs, length-append c bs)

abbrev pub FitNames : List PointAttribute → Type 0
FitNames types = All (λ a. length a.name ≤ 0xffff_ffff) types

pub write_schema_room :
    (types : List PointAttribute) (c : Bytes) (k : Device)
    → FitNames types
    → length c + length (attributes_bytes types) ≤ total_room k
    → ◌≡◌ {A = OutStream × Bool}
        (write_schema types (on c k))
        (on (c ++ attributes_bytes types) k, true)
unfolding write_schema attributes_bytes
write_schema_room [] c k h r = rw (append-nil c)
write_schema_room (a ∷ types) c k (h, hs) r =
    let bs = attribute_bytes a in
    let cs = attributes_bytes types in
    rw
      (
        le→leb _ _ h,
        attribute_written a (on c k) h,
        write_bytes_room c k bs (room_first c k bs cs r),
        ← append_assoc c bs cs,
      )
      (write_schema_room types (c ++ bs) k hs (room_then c k bs cs r))

pub write_schema_full :
    (types : List PointAttribute) (c : Bytes) (k : Device)
    → FitNames types
    → length c ≤ total_room k
    → total_room k < length c + length (attributes_bytes types)
    → (write_schema types (on c k)).1 ≡ false
unfolding write_schema attributes_bytes
write_schema_full [] c k h l r = absurd (omega arith)
write_schema_full (a ∷ types) c k (h, hs) l r =
    let bs = attribute_bytes a in
    let cs = attributes_bytes types in
    elim (dec_le (length c + length bs) (total_room k)) [
      | yes fits ↦
          rw (le→leb _ _ h, attribute_written a (on c k) h, write_bytes_room c k bs fits)
            (write_schema_full types (c ++ bs) k hs (omega (arith, length-append c bs))
              (full_then c k bs cs r))
      | no full ↦
          rw (le→leb _ _ h, attribute_written a (on c k) h, write_bytes_full c k bs (omega arith))
    ]

pub write_attributes_room :
    (types : List PointAttribute) (values : List SpoolAttributeValue) (c : Bytes) (k : Device)
    → FitsValues types values
    → length c + length (values_bytes values) ≤ total_room k
    → ◌≡◌ {A = OutStream × Bool}
        (write_attributes types values (on c k))
        (on (c ++ values_bytes values) k, true)
unfolding write_attributes values_bytes
write_attributes_room [] [] c k h r = rw (append-nil c)
write_attributes_room [] (v ∷ values) c k h r = elim h [ ]
write_attributes_room (a ∷ types) [] c k h r = elim h [ ]
write_attributes_room (a ∷ types) (v ∷ values) c k (e, h, hs) r =
    let bs = value_bytes v in
    let cs = values_bytes values in
    rw
      (
        write_attribute-value a.type v (on c k) e,
        write_attributes,
        write_bytes_room c k bs (room_first c k bs cs r),
        ← append_assoc c bs cs,
      )
      (write_attributes_room types values (c ++ bs) k hs (room_then c k bs cs r))

pub write_attributes_full :
    (types : List PointAttribute) (values : List SpoolAttributeValue) (c : Bytes) (k : Device)
    → FitsValues types values
    → length c ≤ total_room k
    → total_room k < length c + length (values_bytes values)
    → (write_attributes types values (on c k)).1 ≡ false
unfolding write_attributes values_bytes
write_attributes_full [] [] c k h l r = absurd (omega arith)
write_attributes_full [] (v ∷ values) c k h l r = elim h [ ]
write_attributes_full (a ∷ types) [] c k h l r = elim h [ ]
write_attributes_full (a ∷ types) (v ∷ values) c k (e, h, hs) l r =
    let bs = value_bytes v in
    let cs = values_bytes values in
    elim (dec_le (length c + length bs) (total_room k)) [
      | yes fits ↦
          rw
            (
              write_attribute-value a.type v (on c k) e,
              write_attributes,
              write_bytes_room c k bs fits,
            )
            (write_attributes_full types values (c ++ bs) k hs (omega (arith, length-append c bs))
              (full_then c k bs cs r))
      | no full ↦ rw (
        write_attribute-value a.type v (on c k) e,
        write_attributes,
        write_bytes_full c k bs (omega arith),
      )
    ]
