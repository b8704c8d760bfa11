-- ===== src/Memblock/Merge.antt =====
-- `memblock_merge_regions` (mm/memblock.md): the loop over an index, and the pass over the list that it
-- amounts to.
use study_notes.Common.{
  ℕ, zero, suc, none, some, Bool, true, false, ◌&&◌, get_elem?, set, remove_at, add64, Run, done,
  bug, spent, ltb, ◌==◌,
}
use study_notes.Memblock.Region.{Region, MemblockType, cnt, region_end}

-- `this` ends where `next` begins, in the same node and with the same flags.
abbrev pub compatible : Region → Region → Bool
compatible this next =
    (region_end this == next.base) && (this.nid == next.nid) && (this.flags == next.flags)

-- `this->size += next->size`
abbrev pub join : Region → Region → Region
join this next = record this { size = add64 this.size next.size }

-- The loop from index `i`. Each round advances `i` or shortens the array.
unfoldable pub merge_loop : ℕ → MemblockType → ℕ → Run MemblockType
merge_loop zero t i = spent
merge_loop (suc fuel) t i = elim (get_elem? t.regions i) [
  | none ↦ done t
  | some this ↦ elim (get_elem? t.regions (suc i)) [
    | none ↦ done t
    | some next ↦ elim (compatible this next) [
      | true ↦
          merge_loop fuel
            (record t { regions = remove_at (set t.regions i (join this next)) (suc i) }) i
      | false ↦ elim (ltb next.base (region_end this)) [
        | true ↦ bug
        | false ↦ merge_loop fuel t (suc i)
      ]
    ]
  ]
]

unfoldable pub merge_regions : MemblockType → Run MemblockType
merge_regions t = merge_loop (cnt t) t 0
