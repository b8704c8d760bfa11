-- ===== src/Sparse/Usemap.antt =====
-- The bitmaps of the sections (mm/sparse_init.c): `alloc_usemap_and_memmap` and its callback. Neither
-- writes the table of sections, which stands beside what they change.
use study_notes.Common.{
  ℕ, zero, suc, ◌+◌, ◌-◌, ◌*◌, ◌/◌, ◌%◌, ◌^◌, none, some, true, false, ◌==◌, if◌then◌else◌, word,
  add64, Run, done, ◌>>=◌,
}
use study_notes.Memblock.Api.{Memblock}
use study_notes.Sparse.Section.{Sparse, nr_to_section, sparse_early_nid, present_section_nr}
use study_notes.Sparse.Virt.{Backing, memblock_virt_alloc_node_nopanic}

-- `sparse_early_nid(__nr_to_section(nr))`, for a section that is there.
unfoldable pub nid_of : Sparse → ℕ → ℕ
nid_of s nr = elim (nr_to_section s nr) [ none ↦ 0 | some ms ↦ sparse_early_nid ms ]

module _ {D : Type 0} (s : Sparse) (alloc_func : ℕ → ℕ → ℕ → ℕ → D → Run D)
    (nr_mem_sections : ℕ) where
  -- The first loop: `pnum_begin` and `nodeid_begin`, both 0 if no section is present.
  unfoldable pub first_present : ℕ → ℕ → ℕ × ℕ
  first_present zero pnum = (0, 0)
  first_present (suc rounds) pnum = elim (present_section_nr s pnum) [
    | true ↦ (pnum, nid_of s pnum)
    | false ↦ first_present rounds (pnum + 1)
  ]

  -- The second loop, with its `pnum_begin`, `nodeid_begin` and `map_count`, and "ok, last chunk".
  unfoldable pub chunk_loop : ℕ → ℕ → ℕ → ℕ → ℕ → D → Run D
  chunk_loop zero pnum begin nodeid count d = alloc_func begin nr_mem_sections count nodeid d
  chunk_loop (suc rounds) pnum begin nodeid count d = elim (present_section_nr s pnum) [
    | false ↦ chunk_loop rounds (pnum + 1) begin nodeid count d
    | true ↦ elim (nid_of s pnum == nodeid) [
      | true ↦ chunk_loop rounds (pnum + 1) begin nodeid (count + 1) d
      | false ↦
          alloc_func begin pnum count nodeid d
          >>= chunk_loop rounds (pnum + 1) pnum (nid_of s pnum) 1
    ]
  ]

  unfoldable pub alloc_usemap_and_memmap : D → Run D
  alloc_usemap_and_memmap d =
      let (begin, nodeid) = first_present nr_mem_sections 0 in
      chunk_loop (nr_mem_sections - (begin + 1)) (begin + 1) begin nodeid 1 d

-- `roundup(x, y)`
abbrev pub roundup : ℕ → ℕ → ℕ
roundup x y = (x + (y - 1)) / y * y

-- SECTION_BLOCKFLAGS_BITS, with pageblock_order 9 and NR_PAGEBLOCK_BITS 4.
abbrev pub section_blockflags_bits : ℕ
section_blockflags_bits = 2 ^ (18 - 9) * 4

abbrev pub usemap_size : ℕ
usemap_size = roundup (roundup section_blockflags_bits 8 / 8) 8

-- `usemap_map[]`, whose entries are addresses, and the boot allocator's memory map.
pub record Usemaps : Type 0 where
  pub usemap_map : ℕ → ℕ
  pub memblock : Memblock

-- The loop over the sections of the chunk.
unfoldable pub hand_out : Sparse → ℕ → ℕ → ℕ → (ℕ → ℕ) → ℕ → ℕ
hand_out s zero pnum usemap maps = maps
hand_out s (suc rounds) pnum usemap maps = elim (present_section_nr s pnum) [
  | false ↦ hand_out s rounds (pnum + 1) usemap maps
  | true ↦
      hand_out s rounds (pnum + 1) (add64 usemap usemap_size)
        (λ i. if pnum == i then usemap else maps i)
]

module _ (b : Backing) where
  -- `sparse_early_usemaps_alloc_pgdat_section`, with the node's id: 0, since NODE_DATA is the one node.
  unfoldable pub sparse_early_usemaps_alloc_node : Sparse → ℕ → ℕ → ℕ → ℕ → Usemaps → Run Usemaps
  sparse_early_usemaps_alloc_node s pnum_begin pnum_end usemap_count nodeid u =
      memblock_virt_alloc_node_nopanic b u.memblock (usemap_size * usemap_count % word) 0
      >>= λ (m, usemap). done (record {
        usemap_map = hand_out s (pnum_end - pnum_begin) pnum_begin usemap u.usemap_map;
        memblock = m;
      })
