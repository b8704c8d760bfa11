-- ===== src/Buddy/Tests.antt =====
-- Runs of the zone set-up on a small machine.
use study_notes.Common.{
  ℕ, ◌+◌, ◌-◌, ◌*◌, ◌/◌, ◌≡◌, refl, inr, List, [], ◌∷◌, none, some, true, false, add64, done,
  Returns, arith,
}
use study_notes.Memblock.Region.{Region}
use study_notes.Memblock.Chain.{covers}
use study_notes.Buddy.Frames.{zone_dma, zone_normal, zone_size, zhole_size, holes, take_region}
use study_notes.Buddy.Holes.{count, present, zhole_size-Holes}
use study_notes.Buddy.WaitTable.{
  wait_table_hash_nr_entries, grow, Entries, wait_table_hash_nr_entries-Entries,
}
use study_notes.Buddy.Stat.{
  Pageset, mod_zone_page_state, sign32, reading, Small, mod_zone_page_state-reading,
}
use study_notes.Buddy.Zone.{Zone, Memmap, Kernel, Config}
use study_notes.Buddy.Memmap.{early, memmap_init_zone}
use study_notes.Buddy.PageInit.{IsFlags, Prepared, memmap_init_zone-Ready}
use study_notes.Buddy.Core.{init_zones, all_zones, bootmem_init}
use study_notes.Buddy.Round.{HasHeap}
use study_notes.Buddy.Rounds.{Rounds, init_zones-Rounds}
use study_notes.Buddy.Pageblock.{movable, set_pageblock_migratetype}
use study_notes.Buddy.Flags.{Typed, set_pageblock_migratetype-Typed}
use study_notes.Buddy.Boot.{Booted, bootmem_init-Booted}

abbrev region : ℕ → ℕ → Region
region b n = record { base = b; size = n; flags = 0; nid = 0 }

-- Frames 1, 4 and 5.
abbrev memory : List Region
memory = region 0x1000 0x1000 ∷ region 0x4000 0x2000 ∷ []

abbrev config : Config
config = record {
  sparsemem = true;
  page_bytes = 64;
  wait_queue_bytes = 24;
  page_align = λ x. (x + 0xfff) / 0x1000 * 0x1000;
  wait_table_bits = λ n. 2;
  slab_is_available = false;
  virt_alloc = λ bytes nid. some (λ i. 7 ∷ []);
  vmalloc = λ bytes. none;
  zone_page_state_add = λ x v. add64 v x;
  is_memory = λ a. covers a memory;
  zones_mask = 3;
  zones_pgshift = 60;
  nodes_mask = 3;
  nodes_pgshift = 62;
  pg_reserved = 10;
  section_shift = 18;
  pageblock_order = 9;
  page_group_by_mobility_disabled = false;
  max_order = 11;
  migrate_types = 4;
}

config-HasHeap : HasHeap config
config-HasHeap bytes nid = (λ i. 7 ∷ [], refl)

abbrev fresh_zone : Zone
fresh_zone = record {
  zone_start_pfn = 0;
  managed_pages = 0;
  spanned_pages = 0;
  present_pages = 0;
  name = none;
  vm_stat = 0;
  wait_table = none;
  wait_table_hash_nr_entries = 0;
  wait_table_bits = 0;
  free_area = λ order. record { free_list = λ t. 1 ∷ []; nr_free = 1 };
}

abbrev fresh_memmap : Memmap
fresh_memmap = record {
  page = λ q. record { flags = 0; page_count = 0; mapcount = 0; lru = 1 ∷ [] };
  pageblock_flags = λ nr. some (λ i. 0);
  highest_memmap_pfn = 0;
}

abbrev fresh : Kernel
fresh = record {
  node = record {
    node_id = 0;
    node_start_pfn = 0;
    node_spanned_pages = 0;
    node_present_pages = 0;
    nr_zones = 0;
    node_zones = λ j. fresh_zone;
  };
  memmap = fresh_memmap;
  boot_pageset = record { diff = 0; threshold = 0 };
  nr_kernel_pages = 0;
  nr_all_pages = 0;
  dma_reserve = 0;
}

-- Frames 2 and 3 are missing from the first zone.
two_holes : (zhole_size 1 6 5 memory zone_dma ≡ 2) × (zhole_size 1 6 5 memory zone_normal ≡ 0)
unfolding zhole_size holes take_region
two_holes = (refl, refl)

-- 6144 pages: the least power of two from 24 on.
entries_of_6144 : wait_table_hash_nr_entries 6144 ≡ done 32
unfolding wait_table_hash_nr_entries grow
entries_of_6144 = refl

bootmem_init-Booted_example :
    Returns
      (λ (k', max_pfn). Booted config config-HasHeap memory 1 5 6 k' × (max_pfn ≡ 6))
      (bootmem_init config (λ k. done k) (λ k. done k) memory 0x5800 fresh)
bootmem_init-Booted_example =
    bootmem_init-Booted config config-HasHeap (λ k. done k) (λ k. done k) (region 0x1000 0x1000)
      (region 0x4000 0x2000 ∷ []) 0x5800 0x6000 fresh (omega arith) (omega arith) refl (omega arith)
      (omega arith) (λ q a b v. (λ i. 0, refl))

zhole_size-Holes_example :
    (zhole_size 1 6 5 memory zone_dma + count (present memory) 1 (5 - 1) ≡ zone_size 1 6 5 zone_dma)
    × (zhole_size 1 6 5 memory zone_normal + count (present memory) 5 (6 - 5)
        ≡ zone_size 1 6 5 zone_normal)
zhole_size-Holes_example =
    zhole_size-Holes 1 6 5 (omega arith) (omega arith) memory (omega arith) (omega arith)

config-IsFlags : IsFlags config
config-IsFlags = record { zones = omega arith; nodes = omega arith; reserved = omega arith }

memmap_init_zone-Ready_example :
    Returns
      (Prepared config zone_dma 0 early 1 4 fresh_memmap)
      (memmap_init_zone config fresh_zone 4 0 zone_dma 1 early fresh_memmap)
memmap_init_zone-Ready_example =
    memmap_init_zone-Ready config config-IsFlags zone_dma 0 fresh_zone 4 1 early fresh_memmap
      (omega arith) (omega arith) (λ q a b v. (λ i. 0, refl))

init_zones-Rounds_example :
    Returns
      (Rounds config config-HasHeap (zone_size 1 6 5) (zhole_size 1 6 5 memory) all_zones 1 fresh)
      (init_zones config (zone_size 1 6 5) (some (zhole_size 1 6 5 memory)) all_zones 1 fresh)
unfolding zhole_size holes take_region
init_zones-Rounds_example =
    init_zones-Rounds config config-HasHeap (zone_size 1 6 5) (zhole_size 1 6 5 memory) all_zones 1
      fresh
      (
        omega arith,
        omega arith,
        λ q a b v. (λ i. 0, refl),
        (
          omega arith,
          omega arith,
          λ q a b v. (λ i. 0, refl),
          (omega arith, omega arith, λ q a b v. (λ i. 0, refl), tt),
        ),
      )

wait_table_hash_nr_entries-Entries_example :
    Returns (Entries 6144) (wait_table_hash_nr_entries 6144)
wait_table_hash_nr_entries-Entries_example = wait_table_hash_nr_entries-Entries 6144 (omega arith)

-- A counter at 100 of which 4 are still with the CPU loses 30.
abbrev pageset : Pageset
pageset = record { diff = 4; threshold = 16 }

mod_zone_page_state-reading_example :
    (reading
        (mod_zone_page_state (λ x v. add64 v x) 0xffff_ffe2 pageset 96).0
        (mod_zone_page_state (λ x v. add64 v x) 0xffff_ffe2 pageset 96).1
      ≡ add64 (reading 96 pageset) (sign32 0xffff_ffe2))
    × Small (mod_zone_page_state (λ x v. add64 v x) 0xffff_ffe2 pageset 96).1
mod_zone_page_state-reading_example =
    mod_zone_page_state-reading (λ x v. add64 v x) (λ x v. refl) 0xffff_ffe2 pageset 96
      (omega arith) (omega arith) (omega arith) (inr (omega arith, omega arith))

-- Another CPU changes the word once, to 1, before the type of frame 512 is stored.
set_pageblock_migratetype-Typed_example :
    Returns
      (Typed config 512 movable (1 ∷ []) (λ i. 0) fresh_memmap)
      (set_pageblock_migratetype config (1 ∷ []) fresh_memmap 512 movable)
set_pageblock_migratetype-Typed_example =
    set_pageblock_migratetype-Typed config (1 ∷ []) fresh_memmap 512 movable (λ i. 0) refl
