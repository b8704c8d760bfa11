-- ===== src/Sparse/Init.antt =====
-- `arm64_memory_present` and `sparse_init` (mm/sparse_init.c) one after the other, as `bootmem_init` calls
-- them.
use mathlib.Core.Path.{fun_ext}
use study_notes.Common.{
  ℕ, ◌+◌, ◌-◌, ◌*◌, ◌/◌, ◌%◌, ◌^◌, ◌≤◌, ◌<◌, ◌≡◌, ◌≢◌, refl, ◌∙◌, min, List, true, false, word,
  ullong_max, subst, done, ◌>>=◌, Returns, Returns->>=, Returns->>=->>=, arith,
}
use study_notes.Memblock.Region.{Region}
use study_notes.Memblock.Api.{Memblock, memblock_free}
use study_notes.Memblock.Chain.{IsValid, covers}
use study_notes.Memblock.Grow.{Grows}
use study_notes.Memblock.RemoveRange.{Removed, remove_range-Removed}
use study_notes.Memblock.Isolate.{remove_range}
use study_notes.Memblock.Alloc.{IsPlatform}
use study_notes.Buddy.Holes.{count}
use study_notes.Sparse.Section.{
  Sparse, Platform, nr_to_section, present_section_nr, arm64_memory_present,
}
use study_notes.Sparse.Present.{zeros, section_of, IsBoot}
use study_notes.Sparse.Marking.{touched, HasMemory, arm64_memory_present-HasMemory}
use study_notes.Sparse.Virt.{Backing}
use study_notes.Sparse.Usemap.{
  Usemaps, nid_of, alloc_usemap_and_memmap, sparse_early_usemaps_alloc_node,
}
use study_notes.Sparse.Bitmaps.{Bitmaps}
use study_notes.Sparse.OneNode.{usemaps-Bitmaps}
use study_notes.Sparse.Populate.{Paging, Setup, init_sections, sparse_init}
use study_notes.Sparse.Ready.{IsPaging, Inited}
use study_notes.Sparse.Boot.{AllInited, Inited-null, init_sections-AllInited}

-- The array of bitmaps is allocated, and `reserved` stays in order.
abbrev pub Arrayed : Memblock → (Memblock × ℕ) → Type 0
Arrayed m (m', array) = (m'.memory ≡ m.memory) × IsValid m'.reserved × (array ≤ ullong_max)

-- What is documented of everything that the two functions call.
pub record IsMachine (p : Platform) (g : Paging) (b : Backing) (k : ℕ) : Type 0 where
  pub boot : IsBoot p
  pub paging : IsPaging g p.nr_mem_sections
  pub platform : IsPlatform b.platform
  pub grows : Grows b.double_array
  pub early : b.slab_is_available ≡ false
  pub cache : b.platform.smp_cache_bytes ≡ 2 ^ k
  pub array :
      (size nid : ℕ) (m : Memblock)
      → IsValid m.reserved
      → Returns (Arrayed m) (g.memblock_virt_alloc size nid m)

nid_of_lem : (s : Sparse) (i : ℕ) → nid_of s i ≡ (section_of s i).section_mem_map / 4
unfolding nid_of
nid_of_lem s i = ground arith

module _ (p : Platform) (g : Paging) (b : Backing) (k : ℕ) (machine : IsMachine p g b k)
    (memory : List Region) where
  -- The sections of the memory map have bitmaps in one block and their page structures, or were dropped.
  pub record SparseReady (m : Memblock) (w : Setup) : Type 0 where
    pub base : ℕ
    pub absent :
        (j : ℕ)
        → j < p.nr_mem_sections
        → touched p machine.boot memory j ≡ false
        → section_of w.sparse j ≡ zeros
    pub there :
        (j : ℕ)
        → j < p.nr_mem_sections
        → touched p machine.boot memory j ≡ true
        → Inited g j
            (base + 256 * count (touched p machine.boot memory) 0 j)
            (record { section_mem_map = 1; pageblock_flags = 0 })
            (section_of w.sparse j)
            w.pmd
    pub in_memory :
        base ≢ 0
        → (j x : ℕ) → j < p.nr_mem_sections
        → touched p machine.boot memory j ≡ true
        → base + 256 * count (touched p machine.boot memory) 0 j ≤ x
        → x < base + 256 * count (touched p machine.boot memory) 0 j + 256
        → covers x m.memory.regions ≡ true
    pub valid : IsValid w.sparse.memblock.reserved

  AllInited-SparseReady :
      (m : Memblock) (s s' : Sparse) (u u' : Usemaps) (w w' : Setup)
      → HasMemory p machine.boot memory s s'
      → Bitmaps s' b 0 p.nr_mem_sections u u'
      → ((j : ℕ) → u.usemap_map j ≡ 0)
      → ((j : ℕ) → section_of w.sparse j ≡ section_of s' j)
      → AllInited g 0 p.nr_mem_sections u'.usemap_map w w'
      → u.memblock.memory ≡ m.memory
      → IsValid w'.sparse.memblock.reserved
      → SparseReady m w'
  AllInited-SparseReady m s s' u u' w w' has maps fresh same all memory_eq v = record {
    base = maps.base;
    absent = λ j h t.
        Inited-null g j (u'.usemap_map j) _ _ w'.pmd (none_given j t) (all.inside j (omega arith) h)
        ∙ (same j ∙ has.held j ∙ rw t refl);
    there = λ j h t.
        let old : section_of w.sparse j ≡ record { section_mem_map = 1; pageblock_flags = 0 } =
          same j ∙ has.held j ∙ rw t refl in
        subst
          (λ x.
            Inited g j x (record { section_mem_map = 1; pageblock_flags = 0 })
              (section_of w'.sparse j) w'.pmd)
          (bitmap j h t)
          (subst (λ o. Inited g j (u'.usemap_map j) o (section_of w'.sparse j) w'.pmd) old
            (all.inside j (omega arith) h));
    in_memory = λ got j x h t lo hi.
        let at_j = bitmap j h t in
        rw memory_eq at
          ((maps.free got j x (omega arith) h (has.exactly j ∙ t) (rw at_j lo) (rw at_j hi)).0);
    valid = v;
  }
    where
      none_given : (j : ℕ) → touched p machine.boot memory j ≡ false → u'.usemap_map j ≡ 0
      none_given j t =
          let gone : present_section_nr s' j ≡ false = has.exactly j ∙ t in
          ground (arith, maps.entries j, fresh j)

      bitmap :
          (j : ℕ)
          → j < p.nr_mem_sections
          → touched p machine.boot memory j ≡ true
          → u'.usemap_map j ≡ maps.base + 256 * count (touched p machine.boot memory) 0 j
      bitmap j h t =
          let same_places : present_section_nr s' ≡ touched p machine.boot memory =
            fun_ext has.exactly in
          let whole : j - 0 ≡ j = omega arith in
          let here : present_section_nr s' j ≡ true = has.exactly j ∙ t in
          rw (← same_places) (ground (arith, maps.entries j, whole))

  -- The array of bitmaps is given back.
  free_early-Ready :
      (m : Memblock) (w : Setup) (array size : ℕ)
      → SparseReady m w
      → array ≤ ullong_max
      → Returns (SparseReady m) (
          memblock_free b.double_array w.sparse.memblock array size >>= λ (m', _).
          done (record w { sparse = record w.sparse { memblock = m' } }))
  unfolding memblock_free nr_to_section
  free_early-Ready m w array size r a =
      Returns->>=->>=
        (Removed w.sparse.memblock.reserved array (array + min size (ullong_max - array)))
        (SparseReady m) (remove_range b.double_array w.sparse.memblock.reserved array size) _ _
        (remove_range-Removed b.double_array machine.grows w.sparse.memblock.reserved array size
          r.valid a)
        λ (t, code) removed. record {
          base = r.base;
          absent = r.absent;
          there = r.there;
          in_memory = r.in_memory;
          valid = removed.valid;
        }

  -- One round of all, from the sections that are present.
  sparse_init-Ready :
      (s s' : Sparse) (pmd : ℕ → ℕ) (j : ℕ)
      → HasMemory p machine.boot memory s s'
      → j < p.nr_mem_sections
      → touched p machine.boot memory j ≡ true
      → Returns
          (SparseReady s.memblock)
          (sparse_init g b p.nr_mem_sections (record { sparse = s'; pmd = pmd }))
  unfolding sparse_init nr_to_section
  sparse_init-Ready s s' pmd j has h t =
      Returns->>= (Arrayed s'.memblock) (SparseReady s.memblock)
        (g.memblock_virt_alloc size 0 s'.memblock) _
        (machine.array size 0 s'.memblock has.steady.valid)
        λ (m, array) got.
          let u : Usemaps = record { usemap_map = λ i. 0; memblock = m } in
          Returns->>= (Bitmaps s' b 0 p.nr_mem_sections u) (SparseReady s.memblock)
            (alloc_usemap_and_memmap s' (sparse_early_usemaps_alloc_node b s') p.nr_mem_sections u)
            _
            (usemaps-Bitmaps b s' machine.platform machine.grows p.nr_mem_sections 0 k u j
              machine.early machine.cache (λ i _. nid_of_lem s' i ∙ rw (has.held i) (ground arith))
              machine.boot.few h (has.exactly j ∙ t) got.1)
            λ u' maps.
              let w : Setup = record { sparse = record s' { memblock = u'.memblock }; pmd = pmd } in
              Returns->>= (AllInited g 0 p.nr_mem_sections u'.usemap_map w) (SparseReady s.memblock)
                (init_sections g b p.nr_mem_sections 0 u'.usemap_map w) _
                (rw whole at (
                  init_sections-AllInited g p.nr_mem_sections machine.paging b u'.usemap_map
                    p.nr_mem_sections 0 w (omega arith) λ i _. rw (has.held i) (ground arith)))
                λ w' all.
                  free_early-Ready s.memblock w' array size
                    (AllInited-SparseReady s.memblock s s' u u' w w' has maps (λ i. refl)
                      (λ i. refl) all (got.0 ∙ has.steady.memory) (all.valid maps.valid))
                    got.2
    where
      size : ℕ
      size = 8 * p.nr_mem_sections % word

      whole : p.nr_mem_sections + 0 ≡ p.nr_mem_sections
      whole = omega arith

  -- `arm64_memory_present`, then `sparse_init`, before the slab allocator is up, on a memory map that
  -- touches some section, with `reserved` in order and no section known, on a machine whose functions
  -- that are not part of the file do what is documented of them: they return. A section that no region
  -- touches holds nothing. Each other one gets the bitmap of 256 bytes behind those of the sections
  -- touched before it, from `base` on, and is then ready, with `section_mem_map` 3 above `vmemmap`
  -- and all its page structures mapped, or no longer present, for lack of memory for these; or its
  -- bitmap is null, and it is left as it was. If `base` is not null, all the bitmaps lie in memory.
  pub arm64_sparse_init-SparseReady :
      (s : Sparse) (pmd : ℕ → ℕ) (j : ℕ)
      → IsValid s.memblock.reserved
      → ((i : ℕ) → section_of s i ≡ zeros)
      → j < p.nr_mem_sections
      → touched p machine.boot memory j ≡ true
      → Returns (SparseReady s.memblock) (
          arm64_memory_present p memory s >>= λ s'.
          sparse_init g b p.nr_mem_sections (record { sparse = s'; pmd = pmd }))
  arm64_sparse_init-SparseReady s pmd j v empty h t =
      Returns->>= (HasMemory p machine.boot memory s) (SparseReady s.memblock)
        (arm64_memory_present p memory s) _
        (arm64_memory_present-HasMemory p machine.boot memory s v empty)
        λ s' has. sparse_init-Ready s s' pmd j has h t
