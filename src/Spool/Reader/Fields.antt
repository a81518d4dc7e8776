-- ===== src/Spool/Reader/Fields.antt =====
-- The reader takes each part of the layout off the front of the file.
use usd_pointcloud_plugins.Prelude.{
  ℕ, suc, ◌^◌, ◌≤◌, ◌<◌, ◌≡◌, refl, subst, Bool, true, false, leb, le→leb, List, [], ◌∷◌, ◌++◌,
  Bytes, length, append-nil, append_assoc, All, ◌==◌, eqb_refl, arith, some,
}
use usd_pointcloud_plugins.Prelude.Int.{
  ℤ, pos, negsuc, signed, unsigned, IsI32, IsI64, signed-unsigned_32, signed-unsigned_64,
}
use usd_pointcloud_plugins.Prelude.Words.{to_bytes}
use usd_pointcloud_plugins.Prelude.Decimal.{IsU64}
use usd_pointcloud_plugins.Core.Bounds.{Vec3d}
use usd_pointcloud_plugins.Core.TileId.{TileId, FitsTileId}
use usd_pointcloud_plugins.Cloud.Attribute.{
  PointAttributeType, PointAttribute, int32, int16, uint8, uint16, uint32, uint64, float32, float64,
  float64_vec2, float64_vec3,
}
use usd_pointcloud_plugins.Spool.Stream.{Parse, ◌>>=◌, ◌>>◌, pure, require, read_number}
use usd_pointcloud_plugins.Spool.Stream.Laws.{
  Parses, Parses-pure, Parses-bind, read_number-Parses, read_bytes_of,
}
use usd_pointcloud_plugins.Spool.Schema.{
  SpoolSchema, SpoolAttributeValue, SpoolPoint, int32_value, int16_value, uint8_value, uint16_value,
  uint32_value, uint64_value, float32_value, float64_value, vec2_value, vec3_value, value_index,
  type_code, read_attribute,
}
use usd_pointcloud_plugins.Spool.Layout.{
  value_bytes, FitsValue, IsI16, vec_bytes, FitsVec, values_bytes, FitsValues, point_bytes,
  FitsPoint, attribute_bytes, attributes_bytes, preamble_bytes, footer_bytes,
}
use usd_pointcloud_plugins.Spool.Writer.{spool_header, spool_footer}
use usd_pointcloud_plugins.Spool.Reader.{
  read_vec, read_attributes, read_point, read_string, read_raw_schema, read_preamble, read_footer,
  resolve_schema, type_of_code,
}

-- The last field of a record.
Parses-last :
    {A B : Type 0} {m : Parse A} (f : A → B) {a : A} {bs : Bytes}
    → Parses m a bs
    → Parses (m >>= λ x. pure (f x)) (f a) bs
Parses-last {m = m} f {a = a} {bs = bs} h =
    subst (λ cs. Parses (m >>= λ x. pure (f x)) (f a) cs) (append-nil bs)
      (Parses-bind (λ x. pure (f x)) h (Parses-pure (f a)))

Parses-require :
    {B : Type 0} (b : Bool) (k : Parse B) {c : B} {bs : Bytes}
    → b ≡ true
    → Parses k c bs
    → Parses (require b >> k) c bs
Parses-require true k e h = record { run = h.run }
Parses-require false k e h = cc

unsigned_32_lt : (z : ℤ) → IsI32 z → unsigned 32 z < 256 ^ 4
unsigned_32_lt (pos n) h = omega arith
unsigned_32_lt (negsuc n) h = omega arith

unsigned_64_lt : (z : ℤ) → IsI64 z → unsigned 64 z < 256 ^ 8
unsigned_64_lt (pos n) h = omega arith
unsigned_64_lt (negsuc n) h = omega arith

unsigned_16_lt : (z : ℤ) → IsI16 z → unsigned 16 z < 256 ^ 2
unsigned_16_lt (pos n) h = omega arith
unsigned_16_lt (negsuc n) h = omega arith

signed-unsigned_16 : (z : ℤ) → IsI16 z → signed 16 (unsigned 16 z) ≡ z
signed-unsigned_16 (pos n) h = ground arith
signed-unsigned_16 (negsuc n) h = ground arith

read_i32 :
    (z : ℤ)
    → IsI32 z
    → Parses
        (read_number 4 >>= λ n. pure (int32_value (signed 32 n)))
        (int32_value z)
        (to_bytes 4 (unsigned 32 z))
read_i32 z h =
    subst
      (λ v.
        Parses (read_number 4 >>= λ n. pure (int32_value (signed 32 n))) (int32_value v)
          (to_bytes 4 (unsigned 32 z)))
      (signed-unsigned_32 z h)
      (Parses-last (λ n. int32_value (signed 32 n))
        (read_number-Parses 4 (unsigned 32 z) (unsigned_32_lt z h)))

read_i16 :
    (z : ℤ)
    → IsI16 z
    → Parses
        (read_number 2 >>= λ n. pure (int16_value (signed 16 n)))
        (int16_value z)
        (to_bytes 2 (unsigned 16 z))
read_i16 z h =
    subst
      (λ v.
        Parses (read_number 2 >>= λ n. pure (int16_value (signed 16 n))) (int16_value v)
          (to_bytes 2 (unsigned 16 z)))
      (signed-unsigned_16 z h)
      (Parses-last (λ n. int16_value (signed 16 n))
        (read_number-Parses 2 (unsigned 16 z) (unsigned_16_lt z h)))

read_attribute-Parses :
    (t : PointAttributeType) (v : SpoolAttributeValue)
    → value_index v ≡ type_code t
    → FitsValue v
    → Parses (read_attribute t) v (value_bytes v)
unfolding value_index type_code read_attribute value_bytes
read_attribute-Parses int32 (int32_value v) e h = read_i32 v h
read_attribute-Parses int16 (int16_value v) e h = read_i16 v h
read_attribute-Parses uint8 (uint8_value v) e h =
    Parses-last uint8_value (read_number-Parses 1 v (omega arith))
read_attribute-Parses uint16 (uint16_value v) e h =
    Parses-last uint16_value (read_number-Parses 2 v (omega arith))
read_attribute-Parses uint32 (uint32_value v) e h =
    Parses-last uint32_value (read_number-Parses 4 v (omega arith))
read_attribute-Parses uint64 (uint64_value v) e h =
    Parses-last uint64_value (read_number-Parses 8 v (omega arith))
read_attribute-Parses float32 (float32_value v) e h =
    Parses-last float32_value (read_number-Parses 4 v (omega arith))
read_attribute-Parses float64 (float64_value v) e h =
    Parses-last float64_value (read_number-Parses 8 v (omega arith))
read_attribute-Parses float64_vec2 (vec2_value x y) e h =
    Parses-bind (λ x. read_number 8 >>= λ y. pure (vec2_value x y))
      (read_number-Parses 8 x (omega arith))
      (Parses-last (vec2_value x) (read_number-Parses 8 y (omega arith)))
read_attribute-Parses float64_vec3 (vec3_value x y z) e h =
    Parses-bind (λ x. read_number 8 >>= λ y. read_number 8 >>= λ z. pure (vec3_value x y z))
      (read_number-Parses 8 x (omega arith))
      (Parses-bind (λ y. read_number 8 >>= λ z. pure (vec3_value x y z))
        (read_number-Parses 8 y (omega arith))
        (Parses-last (vec3_value x y) (read_number-Parses 8 z (omega arith))))
read_attribute-Parses _ _ e h = absurd (omega arith)

read_vec-Parses : (v : Vec3d) → FitsVec v → Parses read_vec v (vec_bytes v)
unfolding read_vec vec_bytes
read_vec-Parses v (hx, hy, hz) = Parses-bind _ (read_number-Parses 8 v.x (omega arith)) (
    Parses-bind _ (read_number-Parses 8 v.y (omega arith)) (
      Parses-last (λ z. record { x = v.x; y = v.y; z = z })
        (read_number-Parses 8 v.z (omega arith))))

read_attributes-Parses :
    (types : List PointAttribute) (values : List SpoolAttributeValue)
    → FitsValues types values
    → Parses (read_attributes types) values (values_bytes values)
unfolding read_attributes values_bytes
read_attributes-Parses [] [] h = Parses-pure []
read_attributes-Parses [] (v ∷ values) h = elim h [ ]
read_attributes-Parses (a ∷ types) [] h = elim h [ ]
read_attributes-Parses (a ∷ types) (v ∷ values) (e, h, hs) =
    Parses-bind _ (read_attribute-Parses a.type v e h)
      (Parses-last (λ vs. v ∷ vs) (read_attributes-Parses types values hs))

pub read_point-Parses :
    (types : List PointAttribute) (p : SpoolPoint)
    → FitsPoint types p
    → Parses (read_point types) p (point_bytes p)
unfolding read_point point_bytes
read_point-Parses types p (hs, ht, hv) = Parses-bind _ (read_vec-Parses p.source_position hs) (
    Parses-bind _ (read_vec-Parses p.stage_position ht) (
      Parses-last
        (λ values. record {
          source_position = p.source_position;
          stage_position = p.stage_position;
          attributes = values;
        })
        (read_attributes-Parses types p.attributes hv)))

type_code_lt : (t : PointAttributeType) → type_code t < 10
unfolding type_code
type_code_lt int32 = omega arith
type_code_lt _ = omega arith

pub raw_attributes : List PointAttribute → List (Bytes × ℕ)
raw_attributes [] = []
raw_attributes (a ∷ types) = (a.name, type_code a.type) ∷ raw_attributes types

read_string-Parses :
    (name : Bytes)
    → length name ≤ 0x10_0000
    → Parses read_string name (to_bytes 4 (length name) ++ name)
unfolding read_string
read_string-Parses name h =
    Parses-bind _ (read_number-Parses 4 (length name) (omega arith))
      (Parses-require _ _ (le→leb _ _ h) (read_bytes_of (length name) name refl))

pub read_raw_schema-Parses :
    (types : List PointAttribute)
    → All (λ a. length a.name ≤ 0x10_0000) types
    → Parses (read_raw_schema (length types)) (raw_attributes types) (attributes_bytes types)
unfolding read_raw_schema raw_attributes attributes_bytes attribute_bytes
read_raw_schema-Parses [] h = Parses-pure []
read_raw_schema-Parses (a ∷ types) (h, hs) =
    subst (λ bs. Parses (read_raw_schema (suc (length types))) (raw_attributes (a ∷ types)) bs)
      (regroup (to_bytes 4 (length a.name)) a.name (to_bytes 1 (type_code a.type))
        (attributes_bytes types))
      (Parses-bind _ (read_string-Parses a.name h) (
        Parses-bind _ (read_number-Parses 1 (type_code a.type) (omega (arith, type_code_lt a.type)))
          (Parses-last (λ rest. (a.name, type_code a.type) ∷ rest)
            (read_raw_schema-Parses types hs))))
  where
    regroup : (ws xs ys zs : Bytes) → (ws ++ xs) ++ (ys ++ zs) ≡ (ws ++ (xs ++ ys)) ++ zs
    regroup ws xs ys zs = simp append_assoc

type_of_code-type_code : (t : PointAttributeType) → type_of_code (type_code t) ≡ some t
unfolding type_code
type_of_code-type_code int32 = refl
type_of_code-type_code _ = refl

pub resolve_schema-raw :
    (types : List PointAttribute) → resolve_schema (raw_attributes types) ≡ some types
unfolding resolve_schema raw_attributes
resolve_schema-raw [] = refl
resolve_schema-raw (a ∷ types) =
    ground (arith, type_of_code-type_code a.type, resolve_schema-raw types)

-- A number that is tested before it is used.
Parses-checked :
    {B : Type 0} (w n : ℕ) (test : ℕ → Bool) (f : ℕ → B)
    → n < 256 ^ w
    → test n ≡ true
    → Parses (read_number w >>= λ c. require (test c) >> pure (f c)) (f n) (to_bytes w n)
Parses-checked w n test f h e =
    subst (λ bs. Parses (read_number w >>= λ c. require (test c) >> pure (f c)) (f n) bs)
      (append-nil (to_bytes w n))
      (Parses-bind (λ c. require (test c) >> pure (f c)) (read_number-Parses w n h)
        (Parses-require (test n) (pure (f n)) e (Parses-pure (f n))))

tile_read_back :
    (tile start : TileId)
    → FitsTileId tile
    → record start {
      level = signed 32 (unsigned 32 tile.level);
      x = signed 64 (unsigned 64 tile.x);
      y = signed 64 (unsigned 64 tile.y);
    }
      ≡ record tile { z = start.z }
tile_read_back tile start f = cc (
  signed-unsigned_32 tile.level f.level,
  signed-unsigned_64 tile.x f.x,
  signed-unsigned_64 tile.y f.y,
)

pub read_preamble-Parses :
    (tile start : TileId) (schema : SpoolSchema)
    → FitsTileId tile
    → schema.version < 256 ^ 4
    → schema.coordinate_space < 256 ^ 1
    → length schema.attributes ≤ 100000
    → Parses
        (read_preamble start)
        (
          schema.version,
          schema.coordinate_space,
          record tile { z = start.z },
          length schema.attributes,
        )
        (preamble_bytes tile schema)
unfolding read_preamble preamble_bytes
read_preamble-Parses tile start schema f hv hs hc =
    Parses-bind _ (read_bytes_of 8 spool_header refl) (
      Parses-require _ _ refl (
        Parses-bind _ (read_number-Parses 4 schema.version hv) (
          Parses-bind _ (read_number-Parses 1 schema.coordinate_space hs) (
            Parses-bind _
              (read_number-Parses 4 (unsigned 32 tile.level) (unsigned_32_lt tile.level f.level))
              (Parses-bind _ (read_number-Parses 8 (unsigned 64 tile.x) (unsigned_64_lt tile.x f.x))
                (Parses-bind _
                  (read_number-Parses 8 (unsigned 64 tile.y) (unsigned_64_lt tile.y f.y))
                  (subst
                    (λ t.
                      Parses {A = ℕ × ℕ × TileId × ℕ}
                        (read_number 4 >>= λ c. require (leb c 100000) >> pure (back c))
                        (schema.version, schema.coordinate_space, t, length schema.attributes)
                        (to_bytes 4 (length schema.attributes)))
                    (tile_read_back tile start f)
                    (Parses-checked 4 (length schema.attributes) (λ n. leb n 100000) back
                      (omega arith) (le→leb _ _ hc)))))))))
  where
    back : ℕ → ℕ × ℕ × TileId × ℕ
    back n = (
      schema.version,
      schema.coordinate_space,
      record start {
        level = signed 32 (unsigned 32 tile.level);
        x = signed 64 (unsigned 64 tile.x);
        y = signed 64 (unsigned 64 tile.y);
      },
      n,
    )

pub read_footer-Parses :
    (count : ℕ) → IsU64 count → Parses (read_footer count) count (footer_bytes count)
unfolding read_footer footer_bytes
read_footer-Parses count h = Parses-bind _ (read_bytes_of 8 spool_footer refl) (
    Parses-require _ _ refl
      (Parses-checked 8 count (λ n. n == count) (λ n. n) (omega arith) (eqb_refl count)))
