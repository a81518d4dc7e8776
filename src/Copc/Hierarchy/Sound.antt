-- ===== src/Copc/Hierarchy/Sound.antt =====
-- What holds of the entries that were read, whatever the file gives.
use usd_pointcloud_plugins.Prelude.{
  ℕ, zero, suc, ◌+◌, ◌-◌, ◌%◌, ◌^◌, ◌≤◌, ◌<◌, ◌≡◌, refl, sym, ap, ◌∙◌, subst, Bool, true, false,
  not, ◌||◌, if◌then◌else◌, ltb, ◌==◌, eqb→eq, List, [], ◌∷◌, ◌++◌, Bytes, All, All-append, arith,
  Bool-cases, inl, inr, String,
}
use usd_pointcloud_plugins.Prelude.Int.{ℤ, pos, negsuc, unsigned, eqb_ℤ, ltb_ℤ}
use usd_pointcloud_plugins.Prelude.Decimal.{IsU64}
use usd_pointcloud_plugins.Core.Diagnostic.{DiagnosticCode, Checked, ok, err}
use usd_pointcloud_plugins.Copc.Entry.{
  Entry, CopcHeader, is_file_range_valid, entry_is_valid, is_hierarchy_page, is_point_data,
  entry_at, hierarchy_entry_size, copc_header_is_valid,
}
use usd_pointcloud_plugins.Copc.Hierarchy.{
  Walk, PageResult, walked, failed, out_of_fuel, ReadPage, and_then, unless_at, push_entry,
  child_page, count_points, point_entry, take_entry, take_entries, read_file_range, page_read,
  read_page, HierarchyResult, hierarchy, refused, no_fuel, start, check_total, read_hierarchy,
}

abbrev pub points_of : Entry → ℕ
points_of e = if is_point_data e then unsigned 64 e.point_count else 0

abbrev pub points_sum : List Entry → ℕ
points_sum [] = 0
points_sum (e ∷ es) = points_of e + points_sum es

-- A valid entry, and the range that a page or point entry names lies in the file.
pub record Placed (header : CopcHeader) (e : Entry) : Type 0 where
  pub valid : entry_is_valid e ≡ true
  pub in_file :
      (not (is_hierarchy_page e || is_point_data e)
        || is_file_range_valid header.file_size e.offset (unsigned 64 e.byte_size))
      ≡ true

record Sound (header : CopcHeader) (w : Walk) : Type 0 where
  total : w.total_point_count ≡ points_sum w.entries
  bounded : w.total_point_count ≤ header.las.point_count
  placed : All (Placed header) w.entries

points_sum-append : (xs ys : List Entry) → points_sum (xs ++ ys) ≡ points_sum xs + points_sum ys
points_sum-append [] ys = omega arith
points_sum-append (x ∷ xs) ys = omega (arith, points_sum-append xs ys)

-- A result that is a walk has the property.
abbrev Holds : (Walk → Type 0) → PageResult → Type 0
Holds P (walked w) = P w
Holds P (failed ds) = Unit {0}
Holds P out_of_fuel = Unit {0}

unless_at-Holds :
    (P : Walk → Type 0) (bad : Bool) (c : DiagnosticCode) (m : String) (k : ℕ) (rest : PageResult)
    → (bad ≡ false → Holds P rest)
    → Holds P (unless_at bad c m k rest)
unfolding unless_at
unless_at-Holds P true c m k rest h = tt
unless_at-Holds P false c m k rest h = h refl

and_then-Holds :
    (P : Walk → Type 0) (r : PageResult) (k : Walk → PageResult)
    → Holds P r
    → ((w : Walk) → P w → Holds P (k w))
    → Holds P (and_then r k)
unfolding and_then
and_then-Holds P (walked w) k h next = next w h
and_then-Holds P (failed ds) k h next = tt
and_then-Holds P out_of_fuel k h next = tt

module _ (header : CopcHeader) (small : IsU64 header.las.point_count) where
  push-Sound :
      (w : Walk) (e : Entry) (n : ℕ)
      → Sound header w
      → Placed header e
      → n ≡ w.total_point_count + points_of e
      → n ≤ header.las.point_count
      → Sound header (push_entry (record w { total_point_count = n }) e)
  push-Sound w e n s p t b = record {
    total = omega (arith, t, s.total, points_sum-append w.entries (e ∷ []));
    bounded = b;
    placed = All-append (Placed header) w.entries (e ∷ []) s.placed (p, tt);
  }

  page_no_points : (e : Entry) → is_hierarchy_page e ≡ true → is_point_data e ≡ false
  unfolding is_hierarchy_page is_point_data
  page_no_points e h = negative e.point_count h
    where
      negative : (n : ℤ) → eqb_ℤ n (negsuc 0) ≡ true → ltb_ℤ (pos 0) n ≡ false
      negative (pos n) h = cc
      negative (negsuc n) h = ground arith

  child_page-Sound :
      (go : ReadPage)
      → ((o s : ℕ) (w : Walk) → Sound header w → Holds (Sound header) (go o s w))
      → (at : ℕ) (e : Entry) (w : Walk) → entry_is_valid e ≡ true
      → is_hierarchy_page e ≡ true
      → Sound header w
      → Holds (Sound header) (child_page header go at e w)
  unfolding child_page
  child_page-Sound go h at e w v page s = unless_at-Holds (Sound header) _ _ _ _ _ λ fine.
      h e.offset (unsigned 64 e.byte_size) (push_entry w e) (
        push-Sound w e w.total_point_count s (record { valid = v; in_file = ground arith })
          (rw (page_no_points e page) (omega arith)) s.bounded)

  point_entry-Sound :
      (at : ℕ) (e : Entry) (w : Walk)
      → entry_is_valid e ≡ true
      → is_hierarchy_page e ≡ false
      → Sound header w
      → Holds (Sound header) (point_entry header at e w)
  unfolding point_entry count_points
  point_entry-Sound at e w v page s = unless_at-Holds (Sound header) _ _ _ _ _ λ fine.
      elim (Bool-cases (is_point_data e)) [
        | inl data_entry ↦ rw data_entry (
            unless_at-Holds (Sound header) _ _ _ _ _ λ room.
              let (b, m) =
                counted header.las.point_count w.total_point_count (unsigned 64 e.point_count) small
                  s.bounded room in
              push-Sound w e _ s (record { valid = v; in_file = ground arith }) (rw data_entry m) b)
        | inr other ↦ rw other (
            push-Sound w e w.total_point_count s (record { valid = v; in_file = ground arith })
              (rw other (omega arith)) s.bounded)
      ]
    where
      counted :
          (all total count : ℕ)
          → all < 2 ^ 64
          → total ≤ all
          → ltb ((all + 2 ^ 64 - total) % 2 ^ 64) count ≡ false
          → ((total + count) % 2 ^ 64 ≤ all) × ((total + count) % 2 ^ 64 ≡ total + count)
      counted all total count a b c = (ground arith, ground arith)

  take_entry-Sound :
      (go : ReadPage)
      → ((o s : ℕ) (w : Walk) → Sound header w → Holds (Sound header) (go o s w))
      → (at : ℕ) (e : Entry) (w : Walk) → Sound header w
      → Holds (Sound header) (take_entry header go at e w)
  unfolding take_entry
  take_entry-Sound go h at e w s = unless_at-Holds (Sound header) _ _ _ _ _ λ valid.
      elim (Bool-cases (is_hierarchy_page e)) [
        | inl page ↦ rw page (child_page-Sound go h at e w (ground arith) page s)
        | inr other ↦ rw other (point_entry-Sound at e w (ground arith) other s)
      ]

  take_entries-Sound :
      (go : ReadPage)
      → ((o s : ℕ) (w : Walk) → Sound header w → Holds (Sound header) (go o s w))
      → (offset : ℕ) (page : Bytes) (k n : ℕ) (w : Walk) → Sound header w
      → Holds (Sound header) (take_entries header go offset page k n w)
  unfolding take_entries
  take_entries-Sound go h offset page k zero w s = s
  take_entries-Sound go h offset page k (suc n) w s =
      and_then-Holds (Sound header) _ _ (take_entry-Sound go h (offset + k) (entry_at page k) w s)
        λ w' s'. take_entries-Sound go h offset page (k + hierarchy_entry_size) n w' s'

  page_read-Sound :
      (go : ReadPage)
      → ((o s : ℕ) (w : Walk) → Sound header w → Holds (Sound header) (go o s w))
      → (offset : ℕ) (w : Walk) (c : Checked Bytes) → Sound header w
      → Holds (Sound header) (page_read header go offset w c)
  unfolding page_read
  page_read-Sound go h offset w (err ds) s = tt
  page_read-Sound go h offset w (ok page) s = take_entries-Sound go h offset page 0 _ w s

  read_page-Sound :
      (read : ℕ → ℕ → Checked Bytes) (fuel offset size : ℕ) (w : Walk)
      → Sound header w
      → Holds (Sound header) (read_page header read fuel offset size w)
  unfolding read_page
  read_page-Sound read zero offset size w s = tt
  read_page-Sound read (suc fuel) offset size w s =
      unless_at-Holds (Sound header) _ _ _ _ _ λ range.
        unless_at-Holds (Sound header) _ _ _ _ _ λ fresh.
          page_read-Sound (read_page header read fuel) (read_page-Sound read fuel) offset _
            (read_file_range read header.file_size offset size)
            (record { total = s.total; bounded = s.bounded; placed = s.placed })

  checked :
      (r : PageResult) (entries : List Entry)
      → Holds (Sound header) r
      → check_total header r ≡ hierarchy entries
      → (points_sum entries ≡ header.las.point_count) × All (Placed header) entries
  unfolding check_total
  checked out_of_fuel entries s e = cc
  checked (failed ds) entries s e = cc
  checked (walked w) entries s e =
      elim (Bool-cases (w.total_point_count == header.las.point_count)) [
        | inl same ↦
            (let e' : w.entries ≡ entries = ap entries_of (rw same at e) in
              subst (λ es. (points_sum es ≡ header.las.point_count) × All (Placed header) es) e'
                (sym s.total ∙ eqb→eq _ _ same, s.placed))
        | inr other ↦ (let e' : refused _ ≡ hierarchy entries = rw other at e in cc)
      ]
    where
      entries_of : HierarchyResult → List Entry
      entries_of (hierarchy es) = es
      entries_of (refused ds) = []
      entries_of no_fuel = []

-- For a LAS header with a 64-bit point count, a hierarchy that is returned holds exactly the
-- points that the LAS header counts, every entry of it is valid, and the page or the points that
-- an entry names lie in the file: whatever the source gives and with any fuel.
pub read_hierarchy-Placed :
    (header : CopcHeader) (read : ℕ → ℕ → Checked Bytes) (fuel : ℕ) (entries : List Entry)
    → IsU64 header.las.point_count
    → read_hierarchy header read fuel ≡ hierarchy entries
    → (points_sum entries ≡ header.las.point_count) × All (Placed header) entries
unfolding read_hierarchy
read_hierarchy-Placed header read fuel entries small e =
    elim (Bool-cases (copc_header_is_valid header)) [
      | inl v ↦
          checked header small _ entries
            (read_page-Sound header small read fuel _ _ start
              (record { total = refl; bounded = omega arith; placed = tt }))
            (rw v at e)
      | inr bad ↦ (let e' : refused _ ≡ hierarchy entries = rw bad at e in cc)
    ]
