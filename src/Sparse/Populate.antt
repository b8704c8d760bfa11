-- ===== src/Sparse/Populate.antt =====
-- The page structures of the sections and `sparse_init` (mm/sparse_init.c).
use Prim.Native.Nat.{bit_and, bit_or}
use study_notes.Common.{
  ℕ, zero, suc, ◌+◌, ◌-◌, ◌*◌, ◌/◌, ◌%◌, ◌^◌, Option, none, some, true, false, ◌==◌, if◌then◌else◌,
  word, ullong_max, add64, sub64, Run, done, bug, spent, ◌>>=◌,
}
use study_notes.Memblock.Region.{Code, success, enomem}
use study_notes.Memblock.Api.{Memblock}
use study_notes.Sparse.Section.{
  MemSection, Sparse, nr_to_section, write_section, present_section, present_section_nr,
  sparse_early_nid, pages_per_section, section_nr_to_pfn,
}
use study_notes.Sparse.Virt.{Backing, memblock_free_early}
use study_notes.Sparse.Usemap.{alloc_usemap_and_memmap, sparse_early_usemaps_alloc_node}

-- What the file calls and does not define: the upper levels of the page table, `pmd_addr_end` and the
-- allocator of the blocks of page structures, which give null (`none`, 0) where there is no memory; the
-- masks of `section_mem_map`, the size of a `struct page` and where the page structures stand.
pub record Paging : Type 0 where
  pub vmemmap_pgd_populate : ℕ → ℕ → Memblock → Option Memblock
  pub vmemmap_pud_populate : ℕ → ℕ → Memblock → Option Memblock
  pub vmemmap_alloc_block_buf : ℕ → ℕ → Memblock → Memblock × ℕ
  pub pmd_addr_end : ℕ → ℕ → ℕ
  pub prot_sect_normal : ℕ
  pub vmemmap : ℕ
  pub page_bytes : ℕ
  pub section_map_mask : ℕ
  pub section_has_mem_map : ℕ
  pub memblock_virt_alloc : ℕ → ℕ → Memblock → Run (Memblock × ℕ)

-- PMD_SIZE, of which each entry of the last level maps as much.
abbrev pub pmd_size : ℕ
pmd_size = 2 ^ 21

-- The entries of the last level by the address that they map, 0 for none, and the memory map.
pub record Mapping : Type 0 where
  pub pmd : ℕ → ℕ
  pub memblock : Memblock

module _ (g : Paging) where
  -- The entry for `addr`, and the code.
  unfoldable pub populate_pmd : ℕ → ℕ → Mapping → Mapping × Code
  populate_pmd addr node t =
      if t.pmd (addr / pmd_size) == 0
      then (let (m, p) = g.vmemmap_alloc_block_buf pmd_size node t.memblock in
          if p == 0 then (record t { memblock = m }, enomem) else (
            record {
              pmd = λ i. if addr / pmd_size == i then bit_or p g.prot_sect_normal else t.pmd i;
              memblock = m;
            },
            success,
          ))
      else (t, success)

  -- The body of the loop.
  unfoldable pub populate_one : ℕ → ℕ → Mapping → Mapping × Code
  populate_one addr node t = elim (g.vmemmap_pgd_populate addr node t.memblock) [
    | none ↦ (t, enomem)
    | some m ↦ elim (g.vmemmap_pud_populate addr node m) [
      | none ↦ (record t { memblock = m }, enomem)
      | some m' ↦ populate_pmd addr node (record t { memblock = m' })
    ]
  ]

  -- `while (addr = next, addr != end)`
  unfoldable pub populate_loop : ℕ → ℕ → ℕ → ℕ → Mapping → Run (Mapping × Code)
  populate_loop zero addr end node t = spent
  populate_loop (suc fuel) addr end node t =
      let next = g.pmd_addr_end addr end in
      let (t', code) = populate_one addr node t in
      elim code [
        | enomem ↦ done (t', enomem)
        | success ↦ elim (next == end) [
          | true ↦ done (t', success)
          | false ↦ populate_loop fuel next end node t'
        ]
      ]

  -- A round for each byte is more than enough.
  unfoldable pub vmemmap_populate : ℕ → ℕ → ℕ → Mapping → Run (Mapping × Code)
  vmemmap_populate start end node t = populate_loop (end - start) start end node t

  -- `pfn_to_page`
  abbrev pub pfn_to_page : ℕ → ℕ
  pfn_to_page pfn = (g.vmemmap + pfn * g.page_bytes) % word

  -- `sparse_mem_map_populate`; null is 0.
  unfoldable pub sparse_mem_map_populate : ℕ → ℕ → Mapping → Run (Mapping × ℕ)
  sparse_mem_map_populate pnum nid t =
      let map = pfn_to_page (pnum * pages_per_section) in
      vmemmap_populate map (add64 map (pages_per_section * g.page_bytes)) nid t >>= λ (t', code).
      done (t', elim code [ success ↦ map | enomem ↦ 0 ])

  -- `sparse_encode_mem_map`: the difference of pointers to page structures.
  abbrev pub sparse_encode_mem_map : ℕ → ℕ → ℕ
  sparse_encode_mem_map mem_map pnum = sub64 mem_map (section_nr_to_pfn pnum * g.page_bytes % word)

  -- `none` is -EINVAL.
  unfoldable pub sparse_init_one_section : MemSection → ℕ → ℕ → ℕ → Option MemSection
  sparse_init_one_section ms pnum mem_map bitmap =
      if present_section (some ms)
      then some (record {
        section_mem_map =
            bit_or (bit_and ms.section_mem_map (ullong_max - g.section_map_mask))
              (bit_or (sparse_encode_mem_map mem_map pnum) g.section_has_mem_map);
        pageblock_flags = bitmap;
      })
      else none

-- All that `sparse_init` changes.
pub record Setup : Type 0 where
  pub sparse : Sparse
  pub pmd : ℕ → ℕ

abbrev pub with_mapping : Setup → Mapping → Setup
with_mapping w t = record { sparse = record w.sparse { memblock = t.memblock }; pmd = t.pmd }

abbrev pub mapping_of : Setup → Mapping
mapping_of w = record { pmd = w.pmd; memblock = w.sparse.memblock }

module _ (g : Paging) (b : Backing) where
  -- `sparse_early_mem_map_alloc`
  unfoldable pub sparse_early_mem_map_alloc : ℕ → MemSection → Setup → Run (Setup × ℕ)
  sparse_early_mem_map_alloc pnum ms w =
      sparse_mem_map_populate g pnum (sparse_early_nid ms) (mapping_of w) >>= λ (t, map).
      let w' = with_mapping w t in
      if map == 0
      then done (
        record w' { sparse = write_section w'.sparse pnum (record ms { section_mem_map = 0 }) },
        0,
      )
      else done (w', map)

  -- The body of the loop for a section that is there and has a bitmap; the code is ignored.
  unfoldable pub map_section : ℕ → ℕ → MemSection → Setup → Run Setup
  map_section pnum usemap ms w = sparse_early_mem_map_alloc pnum ms w >>= λ (w', map).
      if map == 0
      then done w'
      else done (elim (sparse_init_one_section g ms pnum map usemap) [
        | none ↦ w'
        | some ms' ↦ record w' { sparse = write_section w'.sparse pnum ms' }
      ])

  unfoldable pub init_section : (ℕ → ℕ) → ℕ → Setup → Run Setup
  init_section usemap_map pnum w = elim (present_section_nr w.sparse pnum) [
    | false ↦ done w
    | true ↦ if usemap_map pnum == 0 then done w else elim (nr_to_section w.sparse pnum) [
      | none ↦ bug
      | some ms ↦ map_section pnum (usemap_map pnum) ms w
    ]
  ]

  unfoldable pub init_sections : ℕ → ℕ → (ℕ → ℕ) → Setup → Run Setup
  init_sections zero pnum usemap_map w = done w
  init_sections (suc rounds) pnum usemap_map w =
      init_section usemap_map pnum w >>= init_sections rounds (pnum + 1) usemap_map

  -- The array of bitmaps is allocated cleared, and freed at the end.
  unfoldable pub sparse_init : ℕ → Setup → Run Setup
  sparse_init nr_mem_sections w =
      let size = 8 * nr_mem_sections % word in
      g.memblock_virt_alloc size 0 w.sparse.memblock >>= λ (m, usemap_map).
      alloc_usemap_and_memmap w.sparse (sparse_early_usemaps_alloc_node b w.sparse) nr_mem_sections
        (record { usemap_map = λ i. 0; memblock = m })
      >>= λ u.
          init_sections nr_mem_sections 0 u.usemap_map
            (record w { sparse = record w.sparse { memblock = u.memblock } })
          >>= λ w'. memblock_free_early b w'.sparse.memblock usemap_map size >>= λ (m', _).
              done (record w' { sparse = record w'.sparse { memblock = m' } })
