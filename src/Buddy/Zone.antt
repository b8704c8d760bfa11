-- ===== src/Buddy/Zone.antt =====
-- `struct zone`, `struct page`, the node and the globals that mm/buddy.c sets up, and what the file only
-- calls, as parameters. What no function of the file reads or writes (locks, wait queues of the node,
-- statistics other than NR_ALLOC_BATCH) has no field.
use study_notes.Common.{ℕ, List, Option, Bool, ◌==◌, if◌then◌else◌, add64}
use study_notes.Buddy.Frames.{ZoneType, zone_dma, zone_normal, zone_movable}
use study_notes.Buddy.Stat.{Pageset}

-- `struct free_area`: a list of frames for each migrate type.
pub record FreeArea : Type 0 where
  pub free_list : ℕ → List ℕ
  pub nr_free : ℕ

-- `wait_table` is NULL or an array of queues.
pub record Zone : Type 0 where
  pub zone_start_pfn : ℕ
  pub managed_pages : ℕ
  pub spanned_pages : ℕ
  pub present_pages : ℕ
  pub name : Option ZoneType
  pub vm_stat : ℕ
  pub wait_table : Option (ℕ → List ℕ)
  pub wait_table_hash_nr_entries : ℕ
  pub wait_table_bits : ℕ
  pub free_area : ℕ → FreeArea

pub record Page : Type 0 where
  pub flags : ℕ
  pub page_count : ℕ
  pub mapcount : ℕ
  pub lru : List ℕ

-- `struct pglist_data`
pub record Node : Type 0 where
  pub node_id : ℕ
  pub node_start_pfn : ℕ
  pub node_spanned_pages : ℕ
  pub node_present_pages : ℕ
  pub nr_zones : ℕ
  pub node_zones : ZoneType → Zone

-- `vmemmap`, and the bitmap of each section: `none` where `__nr_to_section` is NULL.
pub record Memmap : Type 0 where
  pub page : ℕ → Page
  pub pageblock_flags : ℕ → Option (ℕ → ℕ)
  pub highest_memmap_pfn : ℕ

pub record Kernel : Type 0 where
  pub node : Node
  pub memmap : Memmap
  pub boot_pageset : Pageset
  pub nr_kernel_pages : ℕ
  pub nr_all_pages : ℕ
  pub dma_reserve : ℕ

-- Constants of the configuration and functions that are defined elsewhere.
pub record Config : Type 0 where
  pub sparsemem : Bool
  pub page_bytes : ℕ
  pub wait_queue_bytes : ℕ
  pub page_align : ℕ → ℕ
  pub wait_table_bits : ℕ → ℕ
  pub slab_is_available : Bool
  pub virt_alloc : ℕ → ℕ → Option (ℕ → List ℕ)
  pub vmalloc : ℕ → Option (ℕ → List ℕ)
  pub zone_page_state_add : ℕ → ℕ → ℕ
  pub is_memory : ℕ → Bool
  pub zones_mask : ℕ
  pub zones_pgshift : ℕ
  pub nodes_mask : ℕ
  pub nodes_pgshift : ℕ
  pub pg_reserved : ℕ
  pub section_shift : ℕ
  pub pageblock_order : ℕ
  pub page_group_by_mobility_disabled : Bool
  pub max_order : ℕ
  pub migrate_types : ℕ

-- The index of a zone, and `zone_idx`.
abbrev pub zone_idx : ZoneType → ℕ
zone_idx zone_dma = 0
zone_idx zone_normal = 1
zone_idx zone_movable = 2

abbrev pub write_zone : (ZoneType → Zone) → ZoneType → Zone → ZoneType → Zone
write_zone zones j z j' = if zone_idx j == zone_idx j' then z else zones j'

-- `zone_end_pfn`: "spanned_pages = zone_end_pfn - zone_start_pfn".
abbrev pub zone_end_pfn : Zone → ℕ
zone_end_pfn z = add64 z.zone_start_pfn z.spanned_pages
