-- ===== src/Copc/Hierarchy/Fuel.antt =====
-- The fuel that is enough: a page starts inside the file and is read once, so pages nest no deeper
-- than the file is long.
use usd_pointcloud_plugins.Prelude.{
  ℕ, zero, suc, ◌+◌, ◌-◌, ◌%◌, ◌≤◌, ◌<◌, ◌≡◌, ◌≢◌, refl, subst, Bool, true, false, not, ◌||◌,
  if◌then◌else◌, ◌==◌, eqb→eq, any_of, List, [], ◌∷◌, Bytes, arith, Bool-cases, inl, inr, String,
}
use usd_pointcloud_plugins.Prelude.Int.{unsigned}
use usd_pointcloud_plugins.Core.Diagnostic.{DiagnosticCode, Checked, ok, err}
use usd_pointcloud_plugins.Copc.Entry.{
  Entry, CopcHeader, is_file_range_valid, is_hierarchy_page, is_point_data, entry_at,
  hierarchy_entry_size, copc_header_is_valid,
}
use usd_pointcloud_plugins.Copc.Hierarchy.{
  Walk, PageResult, walked, failed, out_of_fuel, ReadPage, and_then, unless_at, push_entry,
  child_page, count_points, point_entry, take_entry, take_entries, page_read, read_page, hierarchy,
  refused, no_fuel, start, check_total, read_hierarchy,
}

-- The places below `n` where no page was read yet.
free : ℕ → List ℕ → ℕ
free zero vs = 0
free (suc n) vs = (if any_of (λ p. p == n) vs then 0 else 1) + free n vs

free-above : (n k : ℕ) (vs : List ℕ) → n ≤ k → free n (k ∷ vs) ≡ free n vs
unfolding free
free-above zero k vs h = refl
free-above (suc n) k vs h = rw (other k n h, free-above n k vs (omega arith)) refl
  where
    other : (k n : ℕ) → suc n ≤ k → (k == n) ≡ false
    other k n h = ground arith

free-insert :
    (n k : ℕ) (vs : List ℕ)
    → k < n
    → any_of (λ p. p == k) vs ≡ false
    → suc (free n (k ∷ vs)) ≡ free n vs
unfolding free
free-insert zero k vs h e = absurd (omega arith)
free-insert (suc n) k vs h e = elim (Bool-cases (k == n)) [
  | inl same ↦
      (let e' = subst (λ x. any_of (λ p. p == x) vs ≡ false) (eqb→eq k n same) e in
        rw (same, e') (omega (arith, free-above n k vs (omega (arith, eqb→eq k n same)))))
  | inr other ↦ rw other (shift _ _ _ (free-insert n k vs (below k n h other) e))
]
  where
    shift : (x a b : ℕ) → suc a ≡ b → suc (x + a) ≡ x + b
    shift x a b h = omega arith

    below : (k n : ℕ) → k < suc n → (k == n) ≡ false → k < n
    below k n h e = ground arith

free-le : (n : ℕ) (vs : List ℕ) → free n vs ≤ n
unfolding free
free-le zero vs = omega arith
free-le (suc n) vs = ground (arith, free-le n vs)

-- The result is not out of fuel, and as many pages at least were read.
abbrev Fueled : ℕ → ℕ → PageResult → Type 0
Fueled n m (walked w) = free n w.visited_pages ≤ m
Fueled n m (failed ds) = Unit {0}
Fueled n m out_of_fuel = ⊥

unless_at-Fueled :
    (n m : ℕ) (bad : Bool) (c : DiagnosticCode) (t : String) (k : ℕ) (rest : PageResult)
    → (bad ≡ false → Fueled n m rest)
    → Fueled n m (unless_at bad c t k rest)
unfolding unless_at
unless_at-Fueled n m true c t k rest h = tt
unless_at-Fueled n m false c t k rest h = h refl

and_then-Fueled :
    (n m : ℕ) (r : PageResult) (k : Walk → PageResult)
    → Fueled n m r
    → ((w : Walk) → free n w.visited_pages ≤ m → Fueled n m (k w))
    → Fueled n m (and_then r k)
unfolding and_then
and_then-Fueled n m (walked w) k h next = next w h
and_then-Fueled n m (failed ds) k h next = tt
and_then-Fueled n m out_of_fuel k h next = absurd h

weaken : (n a b : ℕ) (r : PageResult) → a ≤ b → Fueled n a r → Fueled n b r
weaken n a b (walked w) h f = omega arith
weaken n a b (failed ds) h f = tt
weaken n a b out_of_fuel h f = f

module _ (header : CopcHeader) (n m : ℕ) (go : ReadPage)
    (h : (o s : ℕ) (w : Walk) → free n w.visited_pages ≤ m → Fueled n m (go o s w)) where
  take_entry-Fueled :
      (at : ℕ) (e : Entry) (w : Walk)
      → free n w.visited_pages ≤ m
      → Fueled n m (take_entry header go at e w)
  unfolding take_entry child_page point_entry count_points
  take_entry-Fueled at e w l = unless_at-Fueled n m _ _ _ _ _ λ valid.
      elim (Bool-cases (is_hierarchy_page e)) [
        | inl page ↦ rw page (
            unless_at-Fueled n m _ _ _ _ _
              λ fine. h e.offset (unsigned 64 e.byte_size) (push_entry w e) l)
        | inr other ↦ rw other (
            unless_at-Fueled n m _ _ _ _ _ λ fine. elim (Bool-cases (is_point_data e)) [
              | inl data_entry ↦ rw data_entry (unless_at-Fueled n m _ _ _ _ _ λ room. l)
              | inr empty ↦ rw empty l
            ])
      ]

  take_entries-Fueled :
      (offset : ℕ) (page : Bytes) (k count : ℕ) (w : Walk)
      → free n w.visited_pages ≤ m
      → Fueled n m (take_entries header go offset page k count w)
  unfolding take_entries
  take_entries-Fueled offset page k zero w l = l
  take_entries-Fueled offset page k (suc count) w l =
      and_then-Fueled n m _ _ (take_entry-Fueled (offset + k) (entry_at page k) w l)
        λ w' l'. take_entries-Fueled offset page (k + hierarchy_entry_size) count w' l'

  page_read-Fueled :
      (offset : ℕ) (w : Walk) (c : Checked Bytes)
      → free n w.visited_pages ≤ m
      → Fueled n m (page_read header go offset w c)
  unfolding page_read
  page_read-Fueled offset w (err ds) l = tt
  page_read-Fueled offset w (ok page) l = take_entries-Fueled offset page 0 _ w l

read_page-Fueled :
    (header : CopcHeader) (read : ℕ → ℕ → Checked Bytes) (fuel m offset size : ℕ) (w : Walk)
    → m < fuel
    → free header.file_size w.visited_pages ≤ m
    → Fueled header.file_size m (read_page header read fuel offset size w)
unfolding read_page is_file_range_valid
read_page-Fueled header read zero m offset size w f l = absurd (omega arith)
read_page-Fueled header read (suc fuel) m offset size w f l =
    let n = header.file_size in
    unless_at-Fueled n m _ _ _ _ _ λ range. unless_at-Fueled n m _ _ _ _ _ λ fresh.
      let fewer = free-insert n offset w.visited_pages (inside offset size n range) fresh in
      weaken n (m - 1) m _ (omega arith) (
        page_read-Fueled header n (m - 1) (read_page header read fuel)
          (λ o s w' l'. read_page-Fueled header read fuel (m - 1) o s w' (omega arith) l') offset _
          _ (omega arith))
  where
    inside :
        (offset size n : ℕ)
        → (size == 0
            || not (size % hierarchy_entry_size == 0)
            || not (is_file_range_valid n offset size))
          ≡ false
        → offset < n
    inside offset size n h = ground arith

checked-Fueled :
    (header : CopcHeader) (m : ℕ) (r : PageResult)
    → Fueled header.file_size m r
    → check_total header r ≢ no_fuel
unfolding check_total
checked-Fueled header m out_of_fuel h e = h
checked-Fueled header m (failed ds) h e = cc
checked-Fueled header m (walked w) h e =
    elim (Bool-cases (w.total_point_count == header.las.point_count)) [
      | inl same ↦ (let e' : hierarchy w.entries ≡ no_fuel = rw same at e in cc)
      | inr other ↦ (let e' : refused _ ≡ no_fuel = rw other at e in cc)
    ]

-- With one unit of fuel more than the file has bytes, the walk over the pages always ends, in entries or
-- in a refusal: also for a file whose pages name each other in a circle.
pub read_hierarchy-ends :
    (header : CopcHeader) (read : ℕ → ℕ → Checked Bytes)
    → read_hierarchy header read (suc header.file_size) ≢ no_fuel
unfolding read_hierarchy
read_hierarchy-ends header read e =
    let n = header.file_size in
    elim (Bool-cases (copc_header_is_valid header)) [
      | inl v ↦
          checked-Fueled header n _
            (read_page-Fueled header read (suc n) n _ _ start (omega arith) (free-le n []))
            (rw v at e)
      | inr bad ↦ (let e' : refused _ ≡ no_fuel = rw bad at e in cc)
    ]
