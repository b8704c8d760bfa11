-- ===== src/Sparse/Tests.antt =====
-- The sparse memory set-up on a machine with eight sections.
use study_notes.Common.{
  ℕ, ◌+◌, ◌-◌, ◌*◌, ◌/◌, ◌^◌, ◌≡◌, refl, min, List, [], ◌∷◌, Option, some, none, true, false, word,
  ullong_max, subst, inl, Run, done, bug, spent, ◌++◌, ◌==◌, if◌then◌else◌, ◌>>=◌, Returns, arith,
}
use study_notes.Memblock.Region.{Region, insert_region, cap_size, remove_region}
use study_notes.Memblock.Merge.{merge_regions, merge_loop}
use study_notes.Memblock.Add.{add_range, add_pass, pass_loop, ensure_room}
use study_notes.Memblock.Isolate.{remove_range, isolate_range, isolate_loop, split, remove_loop}
use study_notes.Memblock.Api.{
  Memblock, zeroed, find_in_range_node, find_range_top_down, memblock_reserve, memblock_free,
}
use study_notes.Memblock.Chain.{IsValid}
use study_notes.Memblock.Grow.{Grows}
use study_notes.Memblock.Platforms.{board, board-IsPlatform}
use study_notes.Sparse.Section.{
  MemSection, Sparse, Platform, nr_to_section, present_section_nr, memory_present, present_loop,
  present_round, sparse_index_init, sparse_index_alloc, set_section_nid, mark_present,
  write_section, arm64_memory_present,
}
use study_notes.Sparse.Present.{zeros, section_of, IsBoot}
use study_notes.Sparse.Marking.{
  Swept, memory_present-Swept, HasMemory, arm64_memory_present-HasMemory,
}
use study_notes.Sparse.Virt.{
  Backing, find_on_nodes, find_anywhere, reserve_found, memblock_virt_alloc_internal,
  memblock_virt_alloc_node_nopanic,
}
use study_notes.Sparse.Backed.{VirtAllocated, memblock_virt_alloc_internal-VirtAllocated}
use study_notes.Sparse.Usemap.{
  nid_of, hand_out, Usemaps, first_present, chunk_loop, alloc_usemap_and_memmap,
  sparse_early_usemaps_alloc_node,
}
use study_notes.Sparse.Chunks.{Chunk, chunks, run_chunks, alloc_usemap_and_memmap-chunks}
use study_notes.Sparse.Bitmaps.{Bitmaps}
use study_notes.Sparse.OneNode.{usemaps-Bitmaps}
use study_notes.Sparse.Populate.{
  Paging, Mapping, Setup, vmemmap_populate, populate_loop, populate_one, populate_pmd,
  sparse_mem_map_populate, sparse_init_one_section, sparse_early_mem_map_alloc, map_section,
  init_section, init_sections, sparse_init,
}
use study_notes.Sparse.Mapped.{Ends, Orderly, Populated, vmemmap_populate-Populated}
use study_notes.Sparse.Ready.{IsPaging}
use study_notes.Sparse.Init.{IsMachine, SparseReady, arm64_sparse_init-SparseReady}

abbrev eight : Platform
eight = record {
  nr_mem_sections = 8;
  validate_memmodel_limits = λ start end. (min start (8 * 2 ^ 18), min end (8 * 2 ^ 18));
  slab_is_available = false;
  has_high_memory = λ nid. true;
  kzalloc_node = λ size nid. none;
  kzalloc = λ size. none;
  memblock_virt_alloc_node = λ size nid m. done (m, some (λ i. zeros));
}

abbrev eight-IsBoot : IsBoot eight
eight-IsBoot = record {
  early = refl;
  limits = λ start end. refl;
  serves = λ nid m v. record { memory = refl; valid = v; cleared = (λ i. zeros, refl, λ i. refl) };
  few = omega arith;
}

abbrev region : ℕ → ℕ → Region
region b n = record { base = b; size = n; flags = 0; nid = 0 }

-- Half of section 1, and section 3.
abbrev regions : List Region
regions = region 0x4000_0000 0x2000_0000 ∷ region 0xc000_0000 0x4000_0000 ∷ []

abbrev machine : Memblock
machine = record {
  bottom_up = false;
  current_limit = ullong_max;
  memory = record { max = 128; total_size = 0x6000_0000; regions = regions };
  reserved = zeroed;
}

abbrev machine-IsValid : IsValid machine.reserved
machine-IsValid = record { fits = omega arith; total = refl; shape = inl (refl, refl, refl) }

abbrev empty : Sparse
empty = record { mem_section = λ i. none; section_to_node_table = λ i. 0; memblock = machine }

empty-zeros : (j : ℕ) → section_of empty j ≡ zeros
unfolding nr_to_section
empty-zeros j = refl

-- A table whose sections 1, 2 and 5 are of node 0 and section 4 of node 1.
abbrev two_nodes : Sparse
two_nodes = record empty {
  mem_section = λ root. some (λ i.
      if i == 4
      then record { section_mem_map = 5; pageblock_flags = 0 }
      else if i == 1
      then record { section_mem_map = 1; pageblock_flags = 0 }
      else if i == 2
      then record { section_mem_map = 1; pageblock_flags = 0 }
      else if i == 5
      then record { section_mem_map = 1; pageblock_flags = 0 }
      else zeros);
}

abbrev log_chunk : ℕ → ℕ → ℕ → ℕ → List Chunk → Run (List Chunk)
log_chunk begin end count nid log =
    done (log ++ record { begin = begin; end = end; count = count; nid = nid } ∷ [])

-- Three groups, the last up to the end.
groups :
    alloc_usemap_and_memmap two_nodes log_chunk 8 []
    ≡ done (
        record { begin = 1; end = 4; count = 2; nid = 0 }
        ∷ record { begin = 4; end = 5; count = 1; nid = 1 }
        ∷ record { begin = 5; end = 8; count = 1; nid = 0 }
        ∷ [])
unfolding alloc_usemap_and_memmap first_present chunk_loop present_section_nr nr_to_section nid_of
groups = refl

-- Where no section is present the callback is called all the same.
no_group :
    alloc_usemap_and_memmap empty log_chunk 8 []
    ≡ done (record { begin = 0; end = 8; count = 1; nid = 0 } ∷ [])
unfolding alloc_usemap_and_memmap first_present chunk_loop present_section_nr nr_to_section nid_of
no_group = refl

abbrev backing : Backing
backing = record {
  platform = board;
  double_array = λ t base size. none;
  slab_is_available = false;
  kzalloc_node = λ size nid. 0;
  bootmem_low_limit = 0;
  bootmem_alloc_accessible = 0;
}

backing-Grows : Grows backing.double_array
backing-Grows t base size t' e = cc

abbrev paging : Paging
paging = record {
  vmemmap_pgd_populate = λ addr node m. some m;
  vmemmap_pud_populate = λ addr node m. some m;
  vmemmap_alloc_block_buf = λ size node m. (m, 0x1000_0000);
  pmd_addr_end = λ addr end. min ((addr / 2 ^ 21 + 1) * 2 ^ 21) end;
  prot_sect_normal = 0x711;
  vmemmap = 0x7fbc_0000_0000;
  page_bytes = 64;
  section_map_mask = word - 4;
  section_has_mem_map = 2;
  memblock_virt_alloc = λ size nid m. done (m, 0x5000);
}

paging-Ends : Ends paging
paging-Ends addr end h = (omega arith, omega arith, omega arith, ground arith)

paging-Orderly : Orderly paging
paging-Orderly = record {
  pgd = λ addr node m m' e v. same m m' e v;
  pud = λ addr node m m' e v. same m m' e v;
  block = λ size node m v. v;
}
  where
    same : (m m' : Memblock) → some m ≡ some m' → IsValid m.reserved → IsValid m'.reserved
    same m m' e v = let q : m ≡ m' = cc in subst (λ x. IsValid x.reserved) q v

abbrev paging-IsPaging : IsPaging paging 8
paging-IsPaging = record {
  ends = paging-Ends;
  orderly = paging-Orderly;
  mask = refl;
  has = refl;
  aligned = refl;
  above = omega arith;
  pages = omega arith;
  few = omega arith;
  room = omega arith;
}

abbrev whole : IsMachine eight paging backing 6
whole = record {
  boot = eight-IsBoot;
  paging = paging-IsPaging;
  platform = board-IsPlatform;
  grows = backing-Grows;
  early = refl;
  cache = refl;
  array = λ size nid m v. (refl, v, omega arith);
}

-- What a section holds at the end.
abbrev held : ℕ → Run Setup → Option MemSection
held nr (done w) = nr_to_section w.sparse nr
held nr bug = none
held nr spent = none

abbrev booted : Run Setup
booted = arm64_memory_present eight regions empty >>= λ s'.
    sparse_init paging backing 8 (record { sparse = s'; pmd = λ i. 0 })

-- Sections 1 and 3 get the two bitmaps at the top of the first region; section 2 holds nothing.
third_section :
    held 3 booted
    ≡ some (record { section_mem_map = 0x7fbc_0000_0003; pageblock_flags = 0x5fff_ff00 })
unfolding arm64_memory_present memory_present present_loop present_round sparse_index_init
    sparse_index_alloc set_section_nid mark_present write_section nr_to_section present_section_nr
    sparse_init alloc_usemap_and_memmap first_present chunk_loop nid_of hand_out
    sparse_early_usemaps_alloc_node memblock_virt_alloc_node_nopanic memblock_virt_alloc_internal
    reserve_found find_anywhere find_on_nodes find_in_range_node find_range_top_down
    memblock_reserve add_range cap_size add_pass pass_loop insert_region ensure_room merge_regions
    merge_loop init_sections init_section map_section sparse_early_mem_map_alloc
    sparse_mem_map_populate vmemmap_populate populate_loop populate_one populate_pmd
    sparse_init_one_section memblock_free remove_range isolate_range isolate_loop split remove_loop
    remove_region
third_section = refl

memory_present-Swept_example :
    Returns
      (Swept eight eight-IsBoot 1 2 (3 * 2 ^ 18) empty)
      (memory_present eight 1 (2 * 2 ^ 18 + 5) (3 * 2 ^ 18) empty)
memory_present-Swept_example =
    memory_present-Swept eight eight-IsBoot 1 (2 * 2 ^ 18 + 5) (3 * 2 ^ 18) empty (omega arith)
      machine-IsValid

arm64_memory_present-HasMemory_example :
    Returns (HasMemory eight eight-IsBoot regions empty) (arm64_memory_present eight regions empty)
arm64_memory_present-HasMemory_example =
    arm64_memory_present-HasMemory eight eight-IsBoot regions empty machine-IsValid empty-zeros

memblock_virt_alloc_internal-VirtAllocated_example :
    Returns
      (VirtAllocated backing board-IsPlatform machine 0x200 6 0x1000 0x8000_0000 0)
      (memblock_virt_alloc_internal backing machine 0x200 0 0x1000 0x8000_0000 0)
memblock_virt_alloc_internal-VirtAllocated_example =
    memblock_virt_alloc_internal-VirtAllocated backing board-IsPlatform backing-Grows machine 0x200
      0 6 0x1000 0x8000_0000 0 machine-IsValid refl (omega arith) refl

alloc_usemap_and_memmap-chunks_example :
    alloc_usemap_and_memmap two_nodes log_chunk 8 []
    ≡ run_chunks log_chunk (chunks 8 ((1, 0) ∷ (2, 0) ∷ (4, 1) ∷ (5, 0) ∷ [])) []
unfolding present_section_nr nr_to_section nid_of
alloc_usemap_and_memmap-chunks_example = alloc_usemap_and_memmap-chunks two_nodes log_chunk 8 []

-- A table with sections 1 and 3 of node 0.
abbrev one_node : Sparse
one_node = record empty {
  mem_section = λ root. some (λ i.
      if i == 1
      then record { section_mem_map = 1; pageblock_flags = 0 }
      else if i == 3
      then record { section_mem_map = 1; pageblock_flags = 0 }
      else zeros);
}

one_node-nid : (i : ℕ) → present_section_nr one_node i ≡ true → nid_of one_node i ≡ 0
unfolding nid_of nr_to_section
one_node-nid i h = ground arith

abbrev no_maps : Usemaps
no_maps = record { usemap_map = λ i. 0; memblock = machine }

section_three : present_section_nr one_node 3 ≡ true
unfolding present_section_nr nr_to_section
section_three = refl

usemaps-Bitmaps_example :
    Returns (Bitmaps one_node backing 0 8 no_maps) (
      alloc_usemap_and_memmap one_node (sparse_early_usemaps_alloc_node backing one_node) 8 no_maps)
usemaps-Bitmaps_example =
    usemaps-Bitmaps backing one_node board-IsPlatform backing-Grows 8 0 6 no_maps 3 refl refl
      one_node-nid (omega arith) (omega arith) section_three machine-IsValid

abbrev unmapped : Mapping
unmapped = record { pmd = λ i. 0; memblock = machine }

vmemmap_populate-Populated_example :
    Returns
      (Populated 0x7fbc_0100_0000 0x7fbc_0200_0000 unmapped)
      (vmemmap_populate paging 0x7fbc_0100_0000 0x7fbc_0200_0000 0 unmapped)
vmemmap_populate-Populated_example =
    vmemmap_populate-Populated paging paging-Orderly paging-Ends 0x7fbc_0100_0000 0x7fbc_0200_0000 0
      unmapped (omega arith)

arm64_sparse_init-SparseReady_example :
    Returns (SparseReady eight paging backing 6 whole regions machine) booted
arm64_sparse_init-SparseReady_example =
    arm64_sparse_init-SparseReady eight paging backing 6 whole regions empty (λ i. 0) 1
      machine-IsValid empty-zeros (omega arith) refl
