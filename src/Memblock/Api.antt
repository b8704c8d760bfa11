-- ===== src/Memblock/Api.antt =====
-- `struct memblock` and the functions that the rest of the kernel calls (mm/memblock.c; `memblock_remove`
-- and `memblock_free` stand in mm/memblock.md).
use study_notes.Common.{
  ℕ, ◌-◌, List, [], ◌∷◌, Option, Bool, false, min, max, add64, ullong_max, Run, done, ◌>>=◌, ltb,
  leb, ◌==◌, if◌then◌else◌,
}
use study_notes.Memblock.Region.{Region, MemblockType, Code, success, enomem, max_numnodes}
use study_notes.Memblock.Add.{add_range}
use study_notes.Memblock.Isolate.{remove_range}

pub record Memblock : Type 0 where
  pub bottom_up : Bool
  pub current_limit : ℕ
  pub memory : MemblockType
  pub reserved : MemblockType

-- `INIT_MEMBLOCK_REGIONS`
abbrev pub init_regions : ℕ
init_regions = 128

-- The initial arrays: one entry of zeros.
abbrev pub zeroed : MemblockType
zeroed = record {
  max = init_regions;
  total_size = 0;
  regions = record { base = 0; size = 0; flags = 0; nid = 0 } ∷ [];
}

-- The static initial value, with MEMBLOCK_ALLOC_ANYWHERE as mm/memblock.md gives it.
abbrev pub initial : Memblock
initial = record {
  bottom_up = false;
  current_limit = ullong_max;
  memory = zeroed;
  reserved = zeroed;
}

-- "find out max address": the walk over the memory regions with what is left of `limit`.
unfoldable pub max_address : ℕ → List Region → ℕ
max_address limit [] = ullong_max
max_address limit (r ∷ rs) =
    let rest = max_address (limit - r.size) rs in
    if leb limit r.size then add64 r.base limit else rest

-- `clamp(val, lo, hi)`
abbrev pub clamp : ℕ → ℕ → ℕ → ℕ
clamp val lo hi = min (max val lo) hi

module _ (double_array : MemblockType → ℕ → ℕ → Option MemblockType) where
  unfoldable pub memblock_add : Memblock → ℕ → ℕ → Run (Memblock × Code)
  memblock_add m base size =
      add_range double_array m.memory base size max_numnodes 0 >>= λ (t, code).
      done (record m { memory = t }, code)

  unfoldable pub memblock_reserve : Memblock → ℕ → ℕ → Run (Memblock × Code)
  memblock_reserve m base size =
      add_range double_array m.reserved base size max_numnodes 0 >>= λ (t, code).
      done (record m { reserved = t }, code)

  unfoldable pub memblock_remove : Memblock → ℕ → ℕ → Run (Memblock × Code)
  memblock_remove m base size = remove_range double_array m.memory base size >>= λ (t, code).
      done (record m { memory = t }, code)

  unfoldable pub memblock_free : Memblock → ℕ → ℕ → Run (Memblock × Code)
  memblock_free m base size = remove_range double_array m.reserved base size >>= λ (t, code).
      done (record m { reserved = t }, code)

  -- Both arrays are truncated; the codes are ignored.
  unfoldable pub enforce_memory_limit : Memblock → ℕ → Run Memblock
  enforce_memory_limit m limit =
      if limit == 0
      then done m
      else let max_addr = max_address limit m.memory.regions in
        remove_range double_array m.memory max_addr ullong_max >>= λ (t, _).
        remove_range double_array m.reserved max_addr ullong_max >>= λ (t', _).
        done (record m { memory = t; reserved = t' })

-- The allocator. The iteration over free ranges (`__next_mem_range_rev`), the macro `round_down` and the
-- constants PAGE_SIZE, SMP_CACHE_BYTES and NUMA_NO_NODE are not part of the repository.
pub record Platform : Type 0 where
  pub free_ranges : MemblockType → MemblockType → ℕ → List (ℕ × ℕ)
  pub round_down : ℕ → ℕ → ℕ
  pub page_size : ℕ
  pub smp_cache_bytes : ℕ
  pub numa_no_node : ℕ

module _ (p : Platform) where
  -- `cand = round_down(this_end - size, align)` for a range that is long enough.
  abbrev pub candidate : ℕ → ℕ → ℕ → ℕ
  candidate this_end size align = p.round_down (this_end - size) align

  unfoldable pub find_range_top_down : List (ℕ × ℕ) → ℕ → ℕ → ℕ → ℕ → ℕ
  find_range_top_down [] start end size align = 0
  find_range_top_down ((s, e) ∷ ranges) start end size align =
      let this_start = clamp s start end in
      let this_end = clamp e start end in
      let rest = find_range_top_down ranges start end size align in
      if ltb this_end size
      then rest
      else if leb this_start (candidate this_end size align)
      then candidate this_end size align
      else rest

  -- The branch for bottom-up allocation is empty in the source.
  unfoldable pub find_in_range_node : Memblock → ℕ → ℕ → ℕ → ℕ → ℕ → ℕ
  find_in_range_node m size align start0 end0 nid =
      let end1 = if end0 == 0 then m.current_limit else end0 in
      let start = max start0 p.page_size in
      let end = max start end1 in
      find_range_top_down (p.free_ranges m.memory m.reserved nid) start end size align

  module _ (double_array : MemblockType → ℕ → ℕ → Option MemblockType) where
    -- The search and the reservation, behind "if (!align) align = SMP_CACHE_BYTES;". The address is 0
    -- where nothing was found or it could not be reserved.
    unfoldable pub alloc_aligned : Memblock → ℕ → ℕ → ℕ → ℕ → ℕ → Run (Memblock × ℕ)
    alloc_aligned m size align start end nid =
        let found = find_in_range_node m size align start end nid in
        if found == 0
        then done (m, 0)
        else memblock_reserve double_array m found size >>= λ (m', code).
            done (m', elim code [ success ↦ found | enomem ↦ 0 ])

    unfoldable pub alloc_range_nid : Memblock → ℕ → ℕ → ℕ → ℕ → ℕ → Run (Memblock × ℕ)
    alloc_range_nid m size align start end nid =
        alloc_aligned m size (if align == 0 then p.smp_cache_bytes else align) start end nid

    unfoldable pub alloc_base : Memblock → ℕ → ℕ → ℕ → Run (Memblock × ℕ)
    alloc_base m size align max_addr = alloc_range_nid m size align 0 max_addr p.numa_no_node
