-- ===== src/Memblock/Tests.antt =====
-- Runs of the memblock functions on small maps.
use study_notes.Common.{
  ℕ, ◌+◌, ◌^◌, max, inl, false, ◌≡◌, refl, List, [], ◌∷◌, Option, some, done, Returns, arith,
  ullong_max, inr,
}
use study_notes.Memblock.Region.{
  Region, MemblockType, success, insert_region, cap_size, remove_region,
}
use study_notes.Memblock.Merge.{merge_regions, merge_loop}
use study_notes.Memblock.Add.{add_range, add_pass, pass_loop, ensure_room}
use study_notes.Memblock.Isolate.{remove_range, isolate_range, isolate_loop, split, remove_loop}
use study_notes.Memblock.Api.{
  Memblock, zeroed, enforce_memory_limit, find_range_top_down, alloc_range_nid,
}
use study_notes.Memblock.Chain.{IsValid}
use study_notes.Memblock.Entries.{Holds}
use study_notes.Memblock.MergeList.{merge}
use study_notes.Memblock.MergeLoop.{merge_regions-Holds}
use study_notes.Memblock.Agree.{Agrees, add_pass-Agrees}
use study_notes.Memblock.Limit.{Limited, enforce_memory_limit-Limited}
use study_notes.Memblock.Alloc.{
  Found, find_range_top_down-Found, Allocated, alloc_range_nid-Allocated,
}
use study_notes.Memblock.Platforms.{board, board-IsPlatform}
use study_notes.Memblock.Grow.{Grows, HasRoom, ensure_room-HasRoom}
use study_notes.Memblock.AddRange.{Added, add_range-Added}
use study_notes.Memblock.RemoveRange.{Removed, remove_range-Removed}

-- An array that always doubles.
abbrev doubling : MemblockType → ℕ → ℕ → Option MemblockType
doubling t base size = some (record t { max = t.max + t.max + 1 })

doubling-Grows : Grows doubling
doubling-Grows t base size t' e = ground arith

abbrev region : ℕ → ℕ → Region
region b n = record { base = b; size = n; flags = 0; nid = 1 }

-- Two regions with a hole between them, in an array with room for two.
abbrev two : MemblockType
two = record {
  max = 2;
  total_size = 0x3000;
  regions = region 0x1000 0x1000 ∷ region 0x4000 0x2000 ∷ [];
}

two-IsValid : IsValid two
two-IsValid = record { fits = omega arith; total = refl; shape = inr (omega arith) }

-- An area over the hole and beyond both ends: the pieces are inserted and everything is merged.
add_over :
    add_range doubling two 0x800 0x8000 1 0
    ≡ done
        (record two { max = 5; total_size = 0x8000; regions = region 0x800 0x8000 ∷ [] }, success)
unfolding add_range cap_size add_pass pass_loop insert_region ensure_room merge_regions merge_loop
add_over = refl

-- Removing the middle of the map cuts both regions.
remove_middle :
    remove_range doubling two 0x1800 0x3000
    ≡ done (
      record two {
        max = 5;
        total_size = 0x2000;
        regions = region 0x1000 0x800 ∷ region 0x4800 0x1800 ∷ [];
      },
      success,
    )
unfolding remove_range isolate_range cap_size isolate_loop split insert_region ensure_room
    remove_loop remove_region
remove_middle = refl

add_range-Added_example :
    Returns (Added two 0x800 (0x800 + 0x8000)) (add_range doubling two 0x800 0x8000 1 0)
add_range-Added_example =
    add_range-Added doubling doubling-Grows two 0x800 0x8000 1 0 two-IsValid (omega arith)

remove_range-Removed_example :
    Returns (Removed two 0x1800 (0x1800 + 0x3000)) (remove_range doubling two 0x1800 0x3000)
remove_range-Removed_example =
    remove_range-Removed doubling doubling-Grows two 0x1800 0x3000 two-IsValid (omega arith)

-- Two regions of memory, nothing reserved.
abbrev machine : Memblock
machine = record {
  bottom_up = false;
  current_limit = ullong_max;
  memory = record two { max = 8 };
  reserved = zeroed;
}

abbrev memory-IsValid : IsValid machine.memory
memory-IsValid = record { fits = omega arith; total = refl; shape = inr (omega arith) }

abbrev zeroed-IsValid : IsValid zeroed
zeroed-IsValid = record { fits = omega arith; total = refl; shape = inl (refl, refl, refl) }

enforce_memory_limit-Limited_example :
    Returns
      (Limited doubling doubling-Grows machine 0x1800)
      (enforce_memory_limit doubling machine 0x1800)
enforce_memory_limit-Limited_example =
    enforce_memory_limit-Limited doubling doubling-Grows machine 0x1800 memory-IsValid
      zeroed-IsValid (omega arith) (omega arith)

alloc_range_nid-Allocated_example :
    Returns
      (Allocated board board-IsPlatform machine
        (max 0 0x1000)
        (max (max 0 0x1000) ullong_max)
        0x800
        8)
      (alloc_range_nid board doubling machine 0x800 0x100 0 0 0)
alloc_range_nid-Allocated_example =
    alloc_range_nid-Allocated board board-IsPlatform doubling doubling-Grows machine 0x800 0x100 8 0
      0 0 zeroed-IsValid (omega arith) refl

find_range_top_down-Found_example :
    Found board board-IsPlatform
      ((0x1000, 0x3000) ∷ [])
      0x1000
      0x8000
      0x800
      8
      (find_range_top_down board ((0x1000, 0x3000) ∷ []) 0x1000 0x8000 0x800 (2 ^ 8))
unfolding find_range_top_down
find_range_top_down-Found_example =
    find_range_top_down-Found board board-IsPlatform ((0x1000, 0x3000) ∷ []) 0x1000 0x8000 0x800 8
      (omega arith) (omega arith) (λ h. omega (arith, h))

add_pass-Agrees_example :
    Returns (Agrees two 0x800 0x8800 1 0) (add_pass false 0x8800 1 0 two 0x800)
add_pass-Agrees_example =
    add_pass-Agrees two 0x800 0x8800 1 0 two-IsValid (omega arith) (omega arith)

-- Two regions that touch, and one that does not.
abbrev touching : List Region
touching = region 0x1000 0x1000 ∷ region 0x2000 0x2000 ∷ region 0x8000 0x1000 ∷ []

merge_regions-Holds_example :
    Returns
      (Holds (merge touching) 4)
      (merge_regions (record { max = 4; total_size = 0x4000; regions = touching }))
merge_regions-Holds_example =
    merge_regions-Holds (record { max = 4; total_size = 0x4000; regions = touching }) touching 4
      (record { regions = refl; room = refl; total = refl }) (omega arith) (omega arith)

ensure_room-HasRoom_example : Returns (HasRoom two 3) (ensure_room doubling 6 two 3 0x800 0x8000)
ensure_room-HasRoom_example =
    ensure_room-HasRoom doubling doubling-Grows 6 two 3 0x800 0x8000 (omega arith) (omega arith)
