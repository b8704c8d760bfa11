-- ===== src/Buddy/Frames.antt =====
-- Page frames (mm/sparse_init.c) and the sizes of the zones of a node (`zone_sizes_init` of mm/buddy.c).
use study_notes.Common.{
  ℕ, ◌/◌, ◌^◌, min, max, List, [], ◌∷◌, Option, none, some, ltb, leb, if◌then◌else◌, add64, sub64,
}
use study_notes.Memblock.Region.{Region}

-- `PFN_UP`, `PFN_DOWN`
abbrev pub pfn_up : ℕ → ℕ
pfn_up x = add64 x 0xfff / 2 ^ 12

abbrev pub pfn_down : ℕ → ℕ
pfn_down x = x / 2 ^ 12

-- `memblock_region_memory_base_pfn`, `memblock_region_memory_end_pfn`
abbrev pub base_pfn : Region → ℕ
base_pfn r = pfn_up r.base

abbrev pub end_pfn : Region → ℕ
end_pfn r = pfn_down (add64 r.base r.size)

-- `none`: the array has no entry, and the access is out of bounds.
abbrev pub start_of_dram : List Region → Option ℕ
start_of_dram [] = none
start_of_dram (r ∷ rs) = some r.base

abbrev pub end_of_dram : List Region → Option ℕ
end_of_dram [] = none
end_of_dram (r ∷ []) = some (add64 r.base r.size)
end_of_dram (r ∷ r' ∷ rs) = end_of_dram (r' ∷ rs)

-- The zones where CONFIG_ZONE_DMA is set, and CONFIG_ZONE_DMA32 and CONFIG_HIGHMEM are not: three, as
-- `MAX_NR_ZONES` says.
pub data ZoneType : Type 0 where
  zone_dma zone_normal zone_movable : ZoneType

-- An array with an entry for each zone.
abbrev pub by_zone : ℕ → ℕ → ZoneType → ℕ
by_zone dma normal zone_dma = dma
by_zone dma normal zone_normal = normal
by_zone dma normal zone_movable = 0

-- `zone_size[]`
abbrev pub zone_size : ℕ → ℕ → ℕ → ZoneType → ℕ
zone_size min_pfn max_pfn max_dma = by_zone (sub64 max_dma min_pfn) (sub64 max_pfn max_dma)

-- The loop over the memory regions takes their frames from `zhole_size[]`.
unfoldable pub take_region : ℕ → ℕ → Region → (ℕ × ℕ) → ℕ × ℕ
take_region max_pfn max_dma r (dma, normal) = if leb max_pfn (base_pfn r) then (dma, normal) else (
  if ltb (base_pfn r) max_dma
      then sub64 dma (sub64 (min (end_pfn r) max_dma) (base_pfn r))
      else dma,
  if ltb max_dma (end_pfn r)
      then sub64 normal (sub64 (min (end_pfn r) max_pfn) (max (base_pfn r) max_dma))
      else normal,
)

unfoldable pub holes : ℕ → ℕ → List Region → (ℕ × ℕ) → ℕ × ℕ
holes max_pfn max_dma [] h = h
holes max_pfn max_dma (r ∷ rs) h = holes max_pfn max_dma rs (take_region max_pfn max_dma r h)

-- `zhole_size[]`, at the end of the loop.
unfoldable pub zhole_size : ℕ → ℕ → ℕ → List Region → ZoneType → ℕ
zhole_size min_pfn max_pfn max_dma rs =
    let (dma, normal) = holes max_pfn max_dma rs (sub64 max_dma min_pfn, sub64 max_pfn max_dma) in
    by_zone dma normal
