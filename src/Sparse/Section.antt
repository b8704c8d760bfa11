-- ===== src/Sparse/Section.antt =====
-- The sections of physical memory (mm/sparse_init.c, up to `sparse_index_alloc`): the two-level table, and
-- `arm64_memory_present`, which marks the sections that hold memory.
-- A section holds 2 ^ 18 frames. NR_MEM_SECTIONS, 2 ^ 18 with the source's MAX_PHYSMEM_BITS, is a field
-- of the platform, since its tests run with fewer. An access outside of a table ends in `bug`, as does one
-- through a null pointer. A node id is a number below 2 ^ 29, for which the `int` shift does not overflow.
use Prim.Native.Nat.{bit_and, bit_or}
use study_notes.Common.{
  ℕ, zero, suc, ◌+◌, ◌-◌, ◌*◌, ◌/◌, ◌%◌, ◌^◌, List, [], ◌∷◌, Option, none, some, Bool, true, false,
  ◌==◌, ltb, if◌then◌else◌, word, add64, Run, done, bug, spent, ◌>>=◌,
}
use study_notes.Memblock.Region.{Region}
use study_notes.Memblock.Api.{Memblock}
use study_notes.Buddy.Frames.{base_pfn, end_pfn}

-- `struct mem_section`; the bitmap by its address.
pub record MemSection : Type 0 where
  pub section_mem_map : ℕ
  pub pageblock_flags : ℕ

-- `sizeof(struct mem_section)`, SECTIONS_PER_ROOT and SECTION_ROOT_MASK.
abbrev pub section_bytes : ℕ
section_bytes = 16

abbrev pub sections_per_root : ℕ
sections_per_root = 0x1000 / section_bytes

abbrev pub section_root_mask : ℕ
section_root_mask = sections_per_root - 1

-- PAGES_PER_SECTION and PAGE_SECTION_MASK.
abbrev pub pages_per_section : ℕ
pages_per_section = 2 ^ 18

abbrev pub page_section_mask : ℕ
page_section_mask = word - pages_per_section

abbrev pub section_marked_present : ℕ
section_marked_present = 1

-- `pfn_to_section_nr`, `section_nr_to_pfn`, SECTION_NR_TO_ROOT
abbrev pub pfn_to_section_nr : ℕ → ℕ
pfn_to_section_nr pfn = pfn / 2 ^ 18

abbrev pub section_nr_to_pfn : ℕ → ℕ
section_nr_to_pfn sec = sec * 2 ^ 18 % word

abbrev pub section_nr_to_root : ℕ → ℕ
section_nr_to_root sec = sec / sections_per_root

-- `mem_section[]`, whose entries are null or point to an array, `section_to_node_table[]` and the memory
-- map of the boot allocator.
pub record Sparse : Type 0 where
  pub mem_section : ℕ → Option (ℕ → MemSection)
  pub section_to_node_table : ℕ → ℕ
  pub memblock : Memblock

-- What the file calls and does not define: an allocator gives an array, or null; the boot allocator
-- panics where it has no memory.
pub record Platform : Type 0 where
  pub nr_mem_sections : ℕ
  pub validate_memmodel_limits : ℕ → ℕ → ℕ × ℕ
  pub slab_is_available : Bool
  pub has_high_memory : ℕ → Bool
  pub kzalloc_node : ℕ → ℕ → Option (ℕ → MemSection)
  pub kzalloc : ℕ → Option (ℕ → MemSection)
  pub memblock_virt_alloc_node : ℕ → ℕ → Memblock → Run (Memblock × Option (ℕ → MemSection))

-- `__nr_to_section`
unfoldable pub nr_to_section : Sparse → ℕ → Option MemSection
nr_to_section s nr = elim (s.mem_section (section_nr_to_root nr)) [
  | none ↦ none
  | some sections ↦ some (sections (bit_and nr section_root_mask))
]

abbrev pub set_entry : (ℕ → MemSection) → ℕ → MemSection → ℕ → MemSection
set_entry sections i ms j = if i == j then ms else sections j

-- A write through the pointer that `__nr_to_section` gave.
unfoldable pub write_section : Sparse → ℕ → MemSection → Sparse
write_section s nr ms = record s {
  mem_section = λ root.
      if section_nr_to_root nr == root
      then elim (s.mem_section root) [
        | none ↦ none
        | some sections ↦ some (set_entry sections (bit_and nr section_root_mask) ms)
      ]
      else s.mem_section root;
}

-- `sparse_encode_early_nid`, `sparse_early_nid`
abbrev pub sparse_encode_early_nid : ℕ → ℕ
sparse_encode_early_nid nid = nid * 2 ^ 2

abbrev pub sparse_early_nid : MemSection → ℕ
sparse_early_nid ms = ms.section_mem_map / 2 ^ 2

-- `present_section`, `present_section_nr`
abbrev pub present_section : Option MemSection → Bool
present_section none = false
present_section (some ms) =
    if bit_and ms.section_mem_map section_marked_present == 0 then false else true

unfoldable pub present_section_nr : Sparse → ℕ → Bool
present_section_nr s nr = present_section (nr_to_section s nr)

-- 0 and -EEXIST
pub data IndexCode : Type 0 where
  indexed eexist : IndexCode

module _ (p : Platform) where
  -- NR_SECTION_ROOTS
  abbrev pub nr_section_roots : ℕ
  nr_section_roots = (p.nr_mem_sections + (sections_per_root - 1)) / sections_per_root

  unfoldable pub sparse_index_alloc : ℕ → Memblock → Run (Memblock × Option (ℕ → MemSection))
  sparse_index_alloc nid m =
      let array_size = sections_per_root * section_bytes in
      if p.slab_is_available
      then done
          (m, if p.has_high_memory nid then p.kzalloc_node array_size nid else p.kzalloc array_size)
      else p.memblock_virt_alloc_node array_size nid m

  abbrev pub set_root : ℕ → Sparse → (Memblock × Option (ℕ → MemSection)) → Sparse
  set_root root s (m, sections) = record s {
    mem_section = λ i. if root == i then sections else s.mem_section i;
    memblock = m;
  }

  unfoldable pub sparse_index_init : ℕ → ℕ → Sparse → Run (Sparse × IndexCode)
  sparse_index_init section_nr nid s =
      let root = section_nr_to_root section_nr in
      if ltb root nr_section_roots
      then elim (s.mem_section root) [
        | some sections ↦ done (s, eexist)
        | none ↦ sparse_index_alloc nid s.memblock >>= λ out. done (set_root root s out, indexed)
      ]
      else bug

  -- The table has bytes.
  unfoldable pub set_section_nid : ℕ → ℕ → Sparse → Run Sparse
  set_section_nid section_nr nid s =
      if ltb section_nr p.nr_mem_sections
      then done (record s {
        section_to_node_table =
            λ i. if section_nr == i then nid % 256 else s.section_to_node_table i;
      })
      else bug

  -- The rest of the round: "if (!ms->section_mem_map)".
  unfoldable pub mark_present : ℕ → ℕ → Sparse → Run Sparse
  mark_present section nid s = elim (nr_to_section s section) [
    | none ↦ bug
    | some ms ↦ done (
        if ms.section_mem_map == 0
        then write_section s section (record ms {
          section_mem_map = bit_or (sparse_encode_early_nid nid) section_marked_present;
        })
        else s)
  ]

  unfoldable pub present_round : ℕ → ℕ → Sparse → Run Sparse
  present_round nid pfn s =
      let section = pfn_to_section_nr pfn in
      sparse_index_init section nid s >>= λ (s', _).
      set_section_nid section nid s' >>= mark_present section nid

  unfoldable pub present_loop : ℕ → ℕ → ℕ → ℕ → Sparse → Run Sparse
  present_loop zero nid pfn end s = spent
  present_loop (suc fuel) nid pfn end s = elim (ltb pfn end) [
    | true ↦ present_round nid pfn s >>= present_loop fuel nid (add64 pfn pages_per_section) end
    | false ↦ done s
  ]

  -- A round for each section, and one for the last test.
  unfoldable pub memory_present : ℕ → ℕ → ℕ → Sparse → Run Sparse
  memory_present nid start end s =
      let (start', end') = p.validate_memmodel_limits (bit_and start page_section_mask) end in
      present_loop (p.nr_mem_sections + 1) nid start' end' s

  -- `for_each_memblock(memory, reg)`
  unfoldable pub arm64_memory_present : List Region → Sparse → Run Sparse
  arm64_memory_present [] s = done s
  arm64_memory_present (r ∷ rs) s =
      memory_present 0 (base_pfn r) (end_pfn r) s >>= arm64_memory_present rs
