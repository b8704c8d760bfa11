-- ===== src/Sparse/Virt.antt =====
-- The boot allocator of mm/sparse_init.c: `memblock_virt_alloc_internal`, what calls it, and
-- `memblock_free_early`. A pointer into the linear map is the physical address that it stands for, and
-- null is 0, an address that the search never gives; so `phys_to_virt` and `__pa` are the identity, and
-- the clearing of the block leaves no trace.
use study_notes.Common.{ℕ, Option, Bool, ◌==◌, ltb, if◌then◌else◌, Run, done, ◌>>=◌}
use study_notes.Memblock.Region.{MemblockType, Code, max_numnodes}
use study_notes.Memblock.Api.{
  Memblock, Platform, find_in_range_node, memblock_reserve, memblock_free,
}

-- What the file calls and does not define, beside the platform of the search.
pub record Backing : Type 0 where
  pub platform : Platform
  pub double_array : MemblockType → ℕ → ℕ → Option MemblockType
  pub slab_is_available : Bool
  pub kzalloc_node : ℕ → ℕ → ℕ
  pub bootmem_low_limit : ℕ
  pub bootmem_alloc_accessible : ℕ

module _ (b : Backing) where
  -- From "again:" on: the node, then any node.
  unfoldable pub find_on_nodes : Memblock → ℕ → ℕ → ℕ → ℕ → ℕ → ℕ
  find_on_nodes m size align min_addr max_addr nid =
      let alloc = find_in_range_node b.platform m size align min_addr max_addr nid in
      let any = b.platform.numa_no_node in
      if alloc == 0
      then (if nid == any
          then 0
          else find_in_range_node b.platform m size align min_addr max_addr any)
      else alloc

  -- "if (min_addr) { min_addr = 0; goto again; }"
  unfoldable pub find_anywhere : Memblock → ℕ → ℕ → ℕ → ℕ → ℕ → ℕ
  find_anywhere m size align min_addr max_addr nid =
      let alloc = find_on_nodes m size align min_addr max_addr nid in
      if alloc == 0
      then (if min_addr == 0 then 0 else find_on_nodes m size align 0 max_addr nid)
      else alloc

  -- The labels `done` and `error`. The code of `memblock_reserve` is ignored.
  unfoldable pub reserve_found : Memblock → ℕ → ℕ → Run (Memblock × ℕ)
  reserve_found m size alloc =
      if alloc == 0
      then done (m, 0)
      else memblock_reserve b.double_array m alloc size >>= λ (m', code). done (m', alloc)

  unfoldable pub memblock_virt_alloc_internal : Memblock → ℕ → ℕ → ℕ → ℕ → ℕ → Run (Memblock × ℕ)
  memblock_virt_alloc_internal m size align min_addr max_addr nid =
      let nid' = if nid == max_numnodes then b.platform.numa_no_node else nid in
      let align' = if align == 0 then b.platform.smp_cache_bytes else align in
      let max_addr' = if ltb m.current_limit max_addr then m.current_limit else max_addr in
      if b.slab_is_available
      then done (m, b.kzalloc_node size nid')
      else reserve_found m size (find_anywhere m size align' min_addr max_addr' nid')

  abbrev pub memblock_virt_alloc_try_nid_nopanic : Memblock → ℕ → ℕ → ℕ → ℕ → ℕ → Run (Memblock × ℕ)
  memblock_virt_alloc_try_nid_nopanic m size align min_addr max_addr nid =
      memblock_virt_alloc_internal m size align min_addr max_addr nid

  unfoldable pub memblock_virt_alloc_node_nopanic : Memblock → ℕ → ℕ → Run (Memblock × ℕ)
  memblock_virt_alloc_node_nopanic m size nid =
      memblock_virt_alloc_try_nid_nopanic m size 0 b.bootmem_low_limit b.bootmem_alloc_accessible
        nid

  abbrev pub memblock_free_early : Memblock → ℕ → ℕ → Run (Memblock × Code)
  memblock_free_early m base size = memblock_free b.double_array m base size
