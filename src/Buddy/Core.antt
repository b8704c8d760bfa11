-- ===== src/Buddy/Core.antt =====
-- The zones of a node (`free_area_init_node`, `free_area_init_core`, `bootmem_init` of mm/buddy.c).
use study_notes.Common.{
  ℕ, ◌+◌, ◌-◌, ◌*◌, ◌/◌, ◌%◌, ◌^◌, List, [], ◌∷◌, Option, none, some, Bool, true, false, not, ◌&&◌,
  ◌==◌, ltb, leb, if◌then◌else◌, word, word32, add64, sub64, Run, done, bug, ◌>>=◌,
}
use study_notes.Memblock.Region.{Region}
use study_notes.Buddy.Frames.{
  pfn_up, pfn_down, start_of_dram, end_of_dram, ZoneType, zone_dma, zone_normal, zone_movable,
  zone_size, zhole_size,
}
use study_notes.Buddy.WaitTable.{wait_table_hash_nr_entries}
use study_notes.Buddy.Stat.{mod_zone_page_state}
use study_notes.Buddy.Zone.{FreeArea, Zone, Node, Kernel, Config, zone_idx, write_zone}
use study_notes.Buddy.Memmap.{early, memmap_init_zone}

-- `MAX_NR_ZONES`, one zone after the other.
abbrev pub all_zones : List ZoneType
all_zones = zone_dma ∷ zone_normal ∷ zone_movable ∷ []

-- A NULL `zholes_size` stands for no holes.
abbrev pub zone_absent_pages : Option (ZoneType → ℕ) → ZoneType → ℕ
zone_absent_pages none j = 0
zone_absent_pages (some zholes_size) j = zholes_size j

unfoldable pub sum_spanned : (ZoneType → ℕ) → List ZoneType → ℕ → ℕ
sum_spanned zones_size [] total = total
sum_spanned zones_size (j ∷ js) total = sum_spanned zones_size js (add64 total (zones_size j))

unfoldable pub less_absent : Option (ZoneType → ℕ) → List ZoneType → ℕ → ℕ
less_absent zholes_size [] total = total
less_absent zholes_size (j ∷ js) total =
    less_absent zholes_size js (sub64 total (zone_absent_pages zholes_size j))

unfoldable pub calculate_node_totalpages : (ZoneType → ℕ) → Option (ZoneType → ℕ) → Node → Node
calculate_node_totalpages zones_size zholes_size n =
    let total = sum_spanned zones_size all_zones 0 in
    record n {
      node_spanned_pages = total;
      node_present_pages = less_absent zholes_size all_zones total;
    }

-- `is_highmem_idx`: CONFIG_HIGHMEM is not set.
abbrev pub is_highmem_idx : ZoneType → Bool
is_highmem_idx j = false

-- The loop that initialises the queues.
abbrev pub init_heads : ℕ → (ℕ → List ℕ) → ℕ → List ℕ
init_heads n table i = if ltb i n then [] else table i

-- `INIT_LIST_HEAD` and `nr_free = 0` for every order and type.
abbrev pub zone_init_free_lists : ℕ → ℕ → (ℕ → FreeArea) → ℕ → FreeArea
zone_init_free_lists max_order types area order =
    if ltb order max_order
    then record {
      free_list = λ t. if ltb t types then [] else (area order).free_list t;
      nr_free = if types == 0 then (area order).nr_free else 0;
    }
    else area order

module _ (c : Config) where
  unfoldable pub calc_memmap_size : ℕ → ℕ → ℕ
  calc_memmap_size spanned present =
      let pages =
        if ltb (add64 present (present / 2 ^ 4)) spanned && c.sparsemem then present else spanned in
      c.page_align (pages * c.page_bytes % word) / 2 ^ 12

  -- `none` is -ENOMEM.
  unfoldable pub zone_wait_table_init : ℕ → Zone → ℕ → Run (Option Zone)
  zone_wait_table_init nid z zone_size_pages =
      wait_table_hash_nr_entries zone_size_pages >>= λ entries.
      let bytes = entries * c.wait_queue_bytes % word in
      let allocated = if not c.slab_is_available then c.virt_alloc bytes nid else c.vmalloc bytes in
      elim allocated [
        | none ↦ done none
        | some table ↦ done (
            some (record z {
              wait_table_hash_nr_entries = entries;
              wait_table_bits = c.wait_table_bits entries;
              wait_table = some (init_heads entries table);
            }))
      ]

  -- The node's `nr_zones` and the zone `j`. `none` is the error of the wait table.
  unfoldable pub init_currently_empty_zone : Node → ZoneType → ℕ → ℕ → Run (Option Node)
  init_currently_empty_zone n j zone_start_pfn size =
      zone_wait_table_init n.node_id (n.node_zones j) size >>= λ out. elim out [
        | none ↦ done none
        | some z ↦ done (
            some (record n {
              nr_zones = zone_idx j + 1;
              node_zones = write_zone n.node_zones j (record z {
                zone_start_pfn = zone_start_pfn;
                free_area = zone_init_free_lists c.max_order c.migrate_types z.free_area;
              });
            }))
      ]

  -- What is left of the zone's pages without its memmap, and, for the first zone, the DMA reserve.
  unfoldable pub free_size : ℕ → ZoneType → ℕ → ℕ → ℕ
  free_size dma_reserve j realsize memmap_pages =
      let freesize =
        if not (is_highmem_idx j) && leb memmap_pages realsize
        then realsize - memmap_pages
        else realsize in
      if (zone_idx j == 0) && ltb dma_reserve freesize then freesize - dma_reserve else freesize

  -- The counts of the zone `j` and the globals, up to `mod_zone_page_state`.
  unfoldable pub account_zone : (ZoneType → ℕ) → Option (ZoneType → ℕ) → ZoneType → Kernel → Kernel
  account_zone zones_size zholes_size j k =
      let size = zones_size j in
      let realsize = sub64 size (zone_absent_pages zholes_size j) in
      let memmap_pages = calc_memmap_size size realsize in
      let freesize = free_size k.dma_reserve j realsize memmap_pages in
      let managed = if is_highmem_idx j then realsize else freesize in
      let z = k.node.node_zones j in
      let (vm_stat, pageset) =
        mod_zone_page_state c.zone_page_state_add (managed % word32) k.boot_pageset z.vm_stat in
      record k {
        boot_pageset = pageset;
        nr_kernel_pages =
            if not (is_highmem_idx j)
            then add64 k.nr_kernel_pages freesize
            else if ltb (memmap_pages * 2 % word) k.nr_kernel_pages
            then k.nr_kernel_pages - memmap_pages
            else k.nr_kernel_pages;
        nr_all_pages = add64 k.nr_all_pages freesize;
        node = record k.node {
          node_zones = write_zone k.node.node_zones j (record z {
            spanned_pages = size;
            present_pages = realsize;
            managed_pages = managed;
            name = some j;
            vm_stat = vm_stat;
          });
        };
      }

  -- The rest of the round for a zone that is not empty: `BUG_ON(ret)`.
  unfoldable pub populate_zone : ℕ → ZoneType → ℕ → Kernel → Run Kernel
  populate_zone size j zone_start_pfn k =
      init_currently_empty_zone k.node j zone_start_pfn size >>= λ out. elim out [
        | none ↦ bug
        | some n ↦
            memmap_init_zone c (n.node_zones j) size n.node_id j zone_start_pfn early k.memmap
            >>= λ m. done (record k { node = n; memmap = m })
      ]

  -- `for (j = 0; j < MAX_NR_ZONES; j++)`
  unfoldable pub init_zones :
      (ZoneType → ℕ) → Option (ZoneType → ℕ) → List ZoneType → ℕ → Kernel → Run Kernel
  init_zones zones_size zholes_size [] zone_start_pfn k = done k
  init_zones zones_size zholes_size (j ∷ js) zone_start_pfn k =
      let k' = account_zone zones_size zholes_size j k in
      elim (zones_size j == 0) [
        | true ↦ init_zones zones_size zholes_size js zone_start_pfn k'
        | false ↦ populate_zone (zones_size j) j zone_start_pfn k' >>= λ k''.
            init_zones zones_size zholes_size js (add64 zone_start_pfn (zones_size j)) k''
      ]

  abbrev pub free_area_init_core : (ZoneType → ℕ) → Option (ZoneType → ℕ) → Kernel → Run Kernel
  free_area_init_core zones_size zholes_size k =
      init_zones zones_size zholes_size all_zones k.node.node_start_pfn k

  unfoldable pub free_area_init_node :
      ℕ → (ZoneType → ℕ) → ℕ → Option (ZoneType → ℕ) → Kernel → Run Kernel
  free_area_init_node nid zones_size node_start_pfn zholes_size k =
      free_area_init_core zones_size zholes_size (record k {
        node =
            calculate_node_totalpages zones_size zholes_size
              (record k.node { node_id = nid; node_start_pfn = node_start_pfn });
      })

  unfoldable pub zone_sizes_init : List Region → ℕ → ℕ → ℕ → Kernel → Run Kernel
  zone_sizes_init memory dma_phys_limit min_pfn max_pfn k =
      let max_dma = pfn_down dma_phys_limit in
      free_area_init_node 0 (zone_size min_pfn max_pfn max_dma) min_pfn
        (some (zhole_size min_pfn max_pfn max_dma memory)) k

  -- `bootmem_init`, with the two calls that set up the sparse memory map, and `max_pfn`.
  unfoldable pub bootmem_init :
      (Kernel → Run Kernel) → (Kernel → Run Kernel) → List Region → ℕ → Kernel → Run (Kernel × ℕ)
  bootmem_init arm64_memory_present sparse_init memory dma_phys_limit k =
      elim (start_of_dram memory) [
        | none ↦ bug
        | some base ↦ elim (end_of_dram memory) [
          | none ↦ bug
          | some end ↦
              arm64_memory_present k
              >>= sparse_init
              >>= zone_sizes_init memory dma_phys_limit (pfn_up base) (pfn_down end)
              >>= λ k'. done (k', pfn_down end)
        ]
      ]
