-- ===== src/Reserved/Sized.antt =====
-- `__reserved_mem_alloc_size`: what it does to the memory map, and what its code says.
use study_notes.Common.{
  ℕ, ◌*◌, ◌<◌, ◌≡◌, ◌≢◌, refl, Bool, true, ◌==◌, inl, inr, Option, none, some, Bool-cases, done,
  ◌>>=◌, Returns, Returns->>=, if◌then◌else◌, arith,
}
use study_notes.Memblock.Region.{MemblockType}
use study_notes.Memblock.Api.{Memblock, Platform}
use study_notes.Memblock.Grow.{Grows}
use study_notes.Memblock.Alloc.{IsPlatform}
use study_notes.Reserved.Keeps.{Boot, Extends, Extends-refl}
use study_notes.Reserved.Given.{Given}
use study_notes.Reserved.Tree.{
  size_prop, alloc_ranges, no_map, Property, Errno, ok, einval, enomem, Fdt,
}
use study_notes.Reserved.Reserve.{has_prop, t_len}
use study_notes.Reserved.Allocate.{alloc_anywhere, read_alignment, alloc_size}
use study_notes.Reserved.Windows.{Fits, Tried, alloc_anywhere-Tried}

-- The size that a node asks for, and the alignment, which is 0 where it asks for none.
abbrev pub asked_size : Fdt → Property → ℕ
asked_size fdt s = (fdt.next_cell fdt.root_size_cells s.cells).0

-- What `__reserved_mem_alloc_size` has done for a node, by its code.
pub record Sized (fdt : Fdt) (node : ℕ) (m : Memblock) (out : Memblock × Option (ℕ × ℕ) × Errno)
    : Type 0 where
  pub extends : Extends m out.0
  pub untouched : out.2 ≡ einval → out.0 ≡ m
  pub failed : out.2 ≢ ok → out.1 ≡ none
  pub placed :
      out.2 ≡ ok
      → (base : ℕ) × (size : ℕ) × (align : ℕ) × (s : Property) × (out.1 ≡ some (base, size))
        × (base ≢ 0)
        × (fdt.get_prop node size_prop ≡ some s)
        × (size ≡ asked_size fdt s)
        × (read_alignment fdt node ≡ some align)
        × (0 < size
            → Given m size align (Fits fdt size (fdt.get_prop node alloc_ranges)) (out.0) base)

unwritten : (fdt : Fdt) (node : ℕ) (m : Memblock) → Boot m → Sized fdt node m (m, none, einval)
unwritten fdt node m b = record {
  extends = Extends-refl m b;
  untouched = λ h. refl;
  failed = λ h. refl;
  placed = λ h. cc;
}

module _ (p : Platform) (law : IsPlatform p)
    (double_array : MemblockType → ℕ → ℕ → Option MemblockType) (grows : Grows double_array)
    (fdt : Fdt) (wide : 0 < t_len fdt) where
  alloc_size-by_align :
      (node align : ℕ) (s : Property) (nomap : Bool) (m : Memblock)
      → Boot m
      → fdt.get_prop node size_prop ≡ some s
      → read_alignment fdt node ≡ some align
      → Returns (Sized fdt node m) (
          alloc_anywhere p double_array fdt node (asked_size fdt s) align nomap m >>= λ out.
          elim out [
            | none ↦ done (m, none, einval)
            | some (m', base) ↦
                if base == 0
                then done (m', none, enomem)
                else done (m', some (base, asked_size fdt s), ok)
          ])
  alloc_size-by_align node align s nomap m b f g =
      Returns->>=
        (Tried p law double_array grows fdt wide m (asked_size fdt s) align
          (fdt.get_prop node alloc_ranges))
        (Sized fdt node m) _ _
        (alloc_anywhere-Tried p law double_array grows fdt wide node (asked_size fdt s) align nomap
          m b)
        (λ out t. by_out out t)
    where
      by_out :
          (out : Option (Memblock × ℕ))
          → Tried p law double_array grows fdt wide m
              (asked_size fdt s)
              align
              (fdt.get_prop node alloc_ranges)
              out
          → Returns (Sized fdt node m) (elim out [
            | none ↦ done (m, none, einval)
            | some (m', base) ↦
                if base == 0
                then done (m', none, enomem)
                else done (m', some (base, asked_size fdt s), ok)
          ])
      by_out none t = unwritten fdt node m b
      by_out (some (m', base)) t = elim (Bool-cases (base == 0)) [
        | inl e ↦ rw e (record {
          extends = t.extends;
          untouched = λ h. cc;
          failed = λ h. refl;
          placed = λ h. cc;
        })
        | inr e ↦
            let n : base ≢ 0 = ground arith in
            rw e (record {
              extends = t.extends;
              untouched = λ h. cc;
              failed = λ h. absurd (h refl);
              placed = λ h. (
                base,
                asked_size fdt s,
                align,
                s,
                refl,
                n,
                f,
                refl,
                g,
                elim t.given [ inl z ↦ absurd (n z) | inr x ↦ x ],
              );
            })
      ]

  -- `__reserved_mem_alloc_size`, for a map whose arrays are in order, a platform as `IsPlatform`
  -- says, a `memblock_double_array` as `Grows` says, and cells such that a `reg` entry is not empty:
  -- it returns; what was reserved still is, what is memory was memory before, and the arrays stay in
  -- order; with -EINVAL the map is untouched; with any code but 0 no block is given out. With 0 the
  -- address is not 0 and the size is that of the node; and if this is not 0, then all of the block was
  -- memory and free before, and is reserved afterwards, its address is a multiple of the alignment that
  -- the node asks for, where this is a power of two, and the block lies in one of the windows of
  -- `alloc-ranges`, if the node has these.
  pub alloc_size-Sized :
      (node : ℕ) (m : Memblock)
      → Boot m
      → Returns (Sized fdt node m) (alloc_size p double_array fdt node m)
  unfolding alloc_size
  alloc_size-Sized node m b = by_prop (fdt.get_prop node size_prop) refl
    where
      by_align :
          (s : Property) (found : Option ℕ)
          → fdt.get_prop node size_prop ≡ some s
          → (s.len == fdt.root_size_cells * 4) ≡ true
          → read_alignment fdt node ≡ found
          → Returns (Sized fdt node m) (alloc_size p double_array fdt node m)
      by_align s none e h k = rw (e, h, k, alloc_size) (unwritten fdt node m b)
      by_align s (some align) e h k =
          rw (e, h, k, alloc_size)
            (alloc_size-by_align node align s (has_prop fdt node no_map) m b e k)

      by_prop :
          (found : Option Property)
          → fdt.get_prop node size_prop ≡ found
          → Returns (Sized fdt node m) (alloc_size p double_array fdt node m)
      by_prop none e = rw (e, alloc_size) (unwritten fdt node m b)
      by_prop (some s) e = elim (Bool-cases (s.len == fdt.root_size_cells * 4)) [
        | inl h ↦ by_align s (read_alignment fdt node) e h refl
        | inr h ↦ rw (e, h, alloc_size) (unwritten fdt node m b)
      ]
